-- ===== src/Event/Attributes.antt =====
-- `rb_rg_event_aset` and `rb_rg_event_aref` (ext/raygun/raygun_event.c).
use raygun_apm_ruby.Base.{
  ℕ, Option, none, some, Bool, true, false, pos, u32, not, ◌==◌, if◌then◌else◌,
}
use raygun_apm_ruby.Memory.{read}
use raygun_apm_ruby.Protocol.{
  EncodedString, EncodedShortString, Event, EventData, end, http_in, http_out,
}
use raygun_apm_ruby.Encoder.Size.{rg_encode_size}
use raygun_apm_ruby.Coercion.Strings.{rb_rg_encode_string, rb_rg_encode_short_string}
use raygun_apm_ruby.Event.Slots.{
  Attribute, id_pid, id_tid, id_parent_tid, id_timestamp, id_frequency, id_exception_id,
  id_function_id, id_instance_id, id_tailcall, id_method_source, id_verb, id_status, id_duration,
  id_other, Value, nil, integer, boolean, chars, Ruby, member, ignored, refused, elsewhere, ascii,
  string_member, encoding_of, number_member, number_in, number_out, ll2num,
}

-- A result, an error that is raised, or a fault: an access outside of an array or to a member of the
-- union that is not the event's.
pub data Outcome (A : Type 0) : Type 0 where
  done : A → Outcome A
  raised : Outcome A
  fault : Outcome A

abbrev pub converted : {A : Type 0} → Option ℕ → (ℕ → A) → Outcome A
converted none f = raised
converted (some n) f = done (f n)

abbrev pub unless_fault : {A B : Type 0} → Option A → (A → B) → Outcome B
unless_fault none f = fault
unless_fault (some a) f = done (f a)

abbrev pub rtest : Value → Bool
rtest nil = false
rtest (boolean b) = b
rtest _ = true

abbrev pub with_data : Event → EventData → Event
with_data e d = record e { payload = d }

-- What a setter of a string makes of the value: `nil` and strings only.
unfoldable pub store_string : Ruby → ℕ → EncodedString → Value → Outcome EncodedString
unfolding rb_rg_encode_string
store_string r encoding s nil =
    unless_fault (rb_rg_encode_string r.transcode (record s { encoding = encoding }) none) (λ t. t)
store_string r encoding s (chars cs) =
    unless_fault (rb_rg_encode_string r.transcode (record s { encoding = encoding }) (some cs))
      (λ t. t)
store_string r encoding s _ = fault

unfoldable pub store_verb : Ruby → EncodedShortString → Value → Outcome EncodedShortString
unfolding rb_rg_encode_short_string
store_verb r s nil =
    unless_fault (rb_rg_encode_short_string r.transcode (record s { encoding = ascii }) none)
      (λ t. t)
store_verb r s (chars cs) =
    unless_fault (rb_rg_encode_short_string r.transcode (record s { encoding = ascii }) (some cs))
      (λ t. t)
store_verb r s _ = fault

abbrev pub and_then : {A B : Type 0} → Outcome A → (A → B) → Outcome B
and_then (done a) f = done (f a)
and_then raised f = raised
and_then fault f = fault

-- The branches of the setter that store a string, and those that store a number of the union.
unfoldable pub assign_string : Ruby → Attribute → Value → Event → Outcome Event
unfolding string_member encoding_of store_string
assign_string r a v e = elim (string_member a e.payload) [
  | member s put ↦ and_then (store_string r (encoding_of a) s v) (λ t. with_data e (put t))
  | ignored ↦ done e
  | refused ↦ raised
  | elsewhere ↦ fault
]

unfoldable pub assign_number : Ruby → Attribute → Value → Event → Outcome Event
unfolding number_member number_in
assign_number r a v e = elim (number_member a e.payload) [
  | member _ put ↦ converted (number_in r a v) (λ n. with_data e (put n))
  | ignored ↦ done e
  | refused ↦ raised
  | elsewhere ↦ fault
]

unfoldable pub assign_verb : Ruby → Value → EventData → Outcome EventData
unfolding store_verb
assign_verb r v (http_in h) =
    and_then (store_verb r h.verb v) (λ s. http_in (record h { verb = s }))
assign_verb r v (http_out h) =
    and_then (store_verb r h.verb v) (λ s. http_out (record h { verb = s }))
assign_verb r v _ = fault

unfoldable pub assign_tailcall : Value → EventData → Outcome EventData
assign_tailcall v (end x) = done (end (record x { tail_call = if rtest v then 1 else 0 }))
assign_tailcall v _ = fault

-- The chain of tests on the symbol.
unfoldable pub assign : Ruby → Attribute → Value → Event → Outcome Event
unfolding assign_string assign_number assign_verb assign_tailcall
assign r id_pid v e = converted (r.num2ull v) (λ n. record e { pid = u32 n })
assign r id_tid v e = converted (r.num2ull v) (λ n. record e { tid = u32 n })
assign r id_timestamp v e = converted (r.num2ll v) (λ n. record e { timestamp = n })
assign r id_tailcall v e = and_then (assign_tailcall v e.payload) (with_data e)
assign r id_verb v e = and_then (assign_verb r v e.payload) (with_data e)
assign r id_other v e = raised
assign r id_parent_tid v e = assign_number r id_parent_tid v e
assign r id_frequency v e = assign_number r id_frequency v e
assign r id_exception_id v e = assign_number r id_exception_id v e
assign r id_function_id v e = assign_number r id_function_id v e
assign r id_instance_id v e = assign_number r id_instance_id v e
assign r id_method_source v e = assign_number r id_method_source v e
assign r id_status v e = assign_number r id_status v e
assign r id_duration v e = assign_number r id_duration v e
assign r a v e = assign_string r a v e

-- The length is computed again after every assignment.
unfoldable pub rb_rg_event_aset : Ruby → Event → Attribute → Value → Outcome Event
unfolding assign
rb_rg_event_aset r e a v =
    and_then (assign r a v e) (λ e'. record e' { length = rg_encode_size e'.payload })

-- `rb_str_new(s.string, s.length)`.
unfoldable pub read_string : Attribute → EventData → Outcome Value
unfolding string_member
read_string a d = elim (string_member a d) [
  | member s _ ↦ unless_fault (read s.string s.length) chars
  | ignored ↦ done nil
  | refused ↦ raised
  | elsewhere ↦ fault
]

unfoldable pub read_number : Attribute → EventData → Outcome Value
unfolding number_member number_out
read_number a d = elim (number_member a d) [
  | member n _ ↦ done (integer (number_out a n))
  | ignored ↦ done nil
  | refused ↦ raised
  | elsewhere ↦ fault
]

unfoldable pub read_verb : EventData → Outcome Value
read_verb (http_in h) = unless_fault (read h.verb.string h.verb.length) chars
read_verb (http_out h) = unless_fault (read h.verb.string h.verb.length) chars
read_verb _ = fault

unfoldable pub read_tailcall : EventData → Outcome Value
read_tailcall (end x) = done (boolean (not (x.tail_call == 0)))
read_tailcall _ = fault

unfoldable pub rb_rg_event_aref : Event → Attribute → Outcome Value
unfolding read_string read_number read_verb read_tailcall
rb_rg_event_aref e id_pid = done (integer (pos e.pid))
rb_rg_event_aref e id_tid = done (integer (pos e.tid))
rb_rg_event_aref e id_timestamp = done (integer (ll2num e.timestamp))
rb_rg_event_aref e id_tailcall = read_tailcall e.payload
rb_rg_event_aref e id_verb = read_verb e.payload
rb_rg_event_aref e id_other = raised
rb_rg_event_aref e id_parent_tid = read_number id_parent_tid e.payload
rb_rg_event_aref e id_frequency = read_number id_frequency e.payload
rb_rg_event_aref e id_exception_id = read_number id_exception_id e.payload
rb_rg_event_aref e id_function_id = read_number id_function_id e.payload
rb_rg_event_aref e id_instance_id = read_number id_instance_id e.payload
rb_rg_event_aref e id_method_source = read_number id_method_source e.payload
rb_rg_event_aref e id_status = read_number id_status e.payload
rb_rg_event_aref e id_duration = read_number id_duration e.payload
rb_rg_event_aref e a = read_string a e.payload
