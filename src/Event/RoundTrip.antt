-- ===== src/Event/RoundTrip.antt =====
-- What is set is what is read (ext/raygun/raygun_event.c).
use raygun_apm_ruby.Base.{
  ℕ, ◌≡◌, refl, sym, ap, ◌∙◌, arith, List, Option, none, some, Bool, true, false, length, take, ◌⊎◌,
  inl, inr,
}
use mathlib.Core.Path.{subst}
use raygun_apm_ruby.Protocol.{
  EncodedString, EncodedShortString, EventData, Event, max_string_size, begin, end, methodinfo,
  exception_thrown, process_frequency, process_type, sql, http_in, http_out, begin_transaction,
  thread_started,
}
use raygun_apm_ruby.Encoder.Size.{rg_encode_size}
use raygun_apm_ruby.Memory.{read}
use raygun_apm_ruby.Coercion.Strings.{rb_rg_encode_string, rb_rg_encode_short_string}
use raygun_apm_ruby.Coercion.Truncation.{
  Stored, StoredShort, encode_string-Stored, encode_short_string-Stored,
}
use raygun_apm_ruby.Event.Slots.{
  Attribute, id_parent_tid, id_frequency, id_exception_id, id_function_id, id_instance_id,
  id_method_source, id_class_name, id_method_name, id_provider, id_host, id_database, id_query,
  id_correlation_id, id_url, id_status, id_duration, id_technology_type, id_process_type,
  id_api_key, Value, nil, chars, Ruby, Access, member, ignored, refused, elsewhere, string_member,
  encoding_of, number_member, id_verb, ascii,
}
use raygun_apm_ruby.Event.Attributes.{
  Outcome, done, raised, fault, rb_rg_event_aset, rb_rg_event_aref, assign, assign_string,
  assign_number, read_string, read_number, store_string, unless_fault, and_then, with_data,
  assign_verb, read_verb, store_verb,
}

module _ {S : Type 0} where
  abbrev pub current : Access S → Option S
  current (member s _) = some s
  current _ = none

  abbrev pub stored : Access S → EventData → S → EventData
  stored (member _ put) d s = put s
  stored _ d s = d

  abbrev pub is_member : Access S → Bool
  is_member (member _ _) = true
  is_member _ = false

string_stored :
    (a : Attribute) (d : EventData) (s : EncodedString)
    → is_member (string_member a d) ≡ true
    → current (string_member a (stored (string_member a d) d s)) ≡ some s
unfolding string_member
string_stored id_class_name (methodinfo x) s h = refl
string_stored id_class_name (exception_thrown x) s h = refl
string_stored id_method_name (methodinfo x) s h = refl
string_stored id_provider (sql x) s h = refl
string_stored id_host (sql x) s h = refl
string_stored id_database (sql x) s h = refl
string_stored id_query (sql x) s h = refl
string_stored id_correlation_id (exception_thrown x) s h = refl
string_stored id_url (http_in x) s h = refl
string_stored id_url (http_out x) s h = refl
string_stored id_technology_type (process_type x) s h = refl
string_stored id_technology_type (begin_transaction x) s h = refl
string_stored id_process_type (process_type x) s h = refl
string_stored id_process_type (begin_transaction x) s h = refl
string_stored id_api_key (begin_transaction x) s h = refl
string_stored _ _ s h = ground (arith, h)

pub number_stored :
    (a : Attribute) (d : EventData) (n : ℕ)
    → is_member (number_member a d) ≡ true
    → current (number_member a (stored (number_member a d) d n)) ≡ some n
unfolding number_member
number_stored id_parent_tid (thread_started x) n h = refl
number_stored id_frequency (process_frequency x) n h = refl
number_stored id_exception_id (exception_thrown x) n h = refl
number_stored id_function_id (begin x) n h = refl
number_stored id_function_id (end x) n h = refl
number_stored id_function_id (methodinfo x) n h = refl
number_stored id_instance_id (begin x) n h = refl
number_stored id_method_source (methodinfo x) n h = refl
number_stored id_status (http_in x) n h = refl
number_stored id_status (http_out x) n h = refl
number_stored id_duration (sql x) n h = refl
number_stored id_duration (http_in x) n h = refl
number_stored id_duration (http_out x) n h = refl
number_stored _ _ n h = ground (arith, h)

assign-string :
    (r : Ruby) (e : Event) (a : Attribute) (v : Value)
    → is_member (string_member a e.payload) ≡ true
    → (assign r a v e ≡ assign_string r a v e)
      × ((e' : Event) → rb_rg_event_aref e' a ≡ read_string a e'.payload)
unfolding assign rb_rg_event_aref string_member
assign-string r e id_class_name v h = (refl, λ e'. refl)
assign-string r e id_method_name v h = (refl, λ e'. refl)
assign-string r e id_provider v h = (refl, λ e'. refl)
assign-string r e id_host v h = (refl, λ e'. refl)
assign-string r e id_database v h = (refl, λ e'. refl)
assign-string r e id_query v h = (refl, λ e'. refl)
assign-string r e id_correlation_id v h = (refl, λ e'. refl)
assign-string r e id_url v h = (refl, λ e'. refl)
assign-string r e id_technology_type v h = (refl, λ e'. refl)
assign-string r e id_process_type v h = (refl, λ e'. refl)
assign-string r e id_api_key v h = (refl, λ e'. refl)
assign-string r e _ v h = ground (arith, h)

pub assign-number :
    (r : Ruby) (e : Event) (a : Attribute) (v : Value)
    → is_member (number_member a e.payload) ≡ true
    → (assign r a v e ≡ assign_number r a v e)
      × ((e' : Event) → rb_rg_event_aref e' a ≡ read_number a e'.payload)
unfolding assign rb_rg_event_aref number_member
assign-number r e id_parent_tid v h = (refl, λ e'. refl)
assign-number r e id_frequency v h = (refl, λ e'. refl)
assign-number r e id_exception_id v h = (refl, λ e'. refl)
assign-number r e id_function_id v h = (refl, λ e'. refl)
assign-number r e id_instance_id v h = (refl, λ e'. refl)
assign-number r e id_method_source v h = (refl, λ e'. refl)
assign-number r e id_status v h = (refl, λ e'. refl)
assign-number r e id_duration v h = (refl, λ e'. refl)
assign-number r e _ v h = ground (arith, h)

assign_member :
    (r : Ruby) (e : Event) (a : Attribute) (cs : List ℕ) (s t : EncodedString)
    (put : EncodedString → EventData)
    → string_member a e.payload ≡ member s put
    → rb_rg_encode_string r.transcode (record s { encoding = encoding_of a }) (some cs) ≡ some t
    → assign_string r a (chars cs) e ≡ done (with_data e (put t))
unfolding assign_string store_string
assign_member r e a cs s t put q stores = rw (assign_string, q) (rw stores)

-- What the getter makes of a member that holds a stored string.
kept_string :
    (access : Access EncodedString) (t : EncodedString) {encoding : ℕ} (kept : List ℕ)
    → current access ≡ some t
    → Stored encoding kept t
    → elim access as (λ _. Outcome Value) [
      | member s _ ↦ unless_fault (read s.string s.length) chars
      | ignored ↦ done nil
      | refused ↦ raised
      | elsewhere ↦ fault
    ]
      ≡ done (chars kept)
unfolding read
kept_string (member s put) t kept h k = ground (arith, h, k.content, k.valid)
kept_string ignored t kept h k = absurd (ground (arith, h))
kept_string refused t kept h k = absurd (ground (arith, h))
kept_string elsewhere t kept h k = absurd (ground (arith, h))

-- An attribute that is an `rg_encoded_string_t`.
text_kept :
    (r : Ruby) (e : Event) (a : Attribute) (cs : List ℕ) (s : EncodedString)
    → current (string_member a e.payload) ≡ some s
    → length s.string ≡ max_string_size
    → (e' : Event) × (rb_rg_event_aset r e a (chars cs) ≡ done e')
      × (rb_rg_event_aref e' a ≡ done (chars (take 4096 (r.transcode (encoding_of a) cs))))
      × (e'.length ≡ rg_encode_size e'.payload)
unfolding rb_rg_event_aset read_string
text_kept r e a cs s has room = go (string_member a e.payload) refl
  where
    go :
        (access : Access EncodedString)
        → string_member a e.payload ≡ access
        → (e' : Event) × (rb_rg_event_aset r e a (chars cs) ≡ done e')
          × (rb_rg_event_aref e' a ≡ done (chars (take 4096 (r.transcode (encoding_of a) cs))))
          × (e'.length ≡ rg_encode_size e'.payload)
    go ignored q = absurd (ground (arith, q, has))
    go refused q = absurd (ground (arith, q, has))
    go elsewhere q = absurd (ground (arith, q, has))
    go (member s' put) q =
        let same : s' ≡ s = ground (arith, q, has) in
        let is : is_member (string_member a e.payload) ≡ true = ground (arith, q) in
        let (t, stores, kept) =
          encode_string-Stored r.transcode cs (record s' { encoding = encoding_of a })
            (ap (λ x. length x.string) same ∙ room) in
        let e' : Event = record e { payload = put t; length = rg_encode_size (put t) } in
        let (assigns, reads) = assign-string r e a (chars cs) is in
        let now_has : current (string_member a (put t)) ≡ some t =
          ap (λ x. current (string_member a (stored x e.payload t))) (sym q)
          ∙ string_stored a e.payload t is in
        (
          e',
          ap (λ o. and_then {A = Event} o (λ x. record x { length = rg_encode_size x.payload }))
              (assigns ∙ assign_member r e a cs s' t put q stores),
          reads e' ∙ kept_string (string_member a (put t)) t _ now_has kept,
          refl,
        )

-- The `rg_encoded_short_string_t` of an event.
abbrev pub verb_member : EventData → Option EncodedShortString
verb_member (http_in h) = some h.verb
verb_member (http_out h) = some h.verb
verb_member _ = none

verb_assigned :
    (r : Ruby) (d : EventData) (cs : List ℕ) (s t : EncodedShortString)
    → verb_member d ≡ some s
    → rb_rg_encode_short_string r.transcode (record s { encoding = ascii }) (some cs) ≡ some t
    → (d' : EventData) × (assign_verb r (chars cs) d ≡ done d') × (verb_member d' ≡ some t)
unfolding assign_verb store_verb
verb_assigned r (http_in h) cs s t has stores =
    let same : h.verb ≡ s = ground (arith, has) in
    (http_in (record h { verb = t }), rw (assign_verb, same) (rw stores), refl)
verb_assigned r (http_out h) cs s t has stores =
    let same : h.verb ≡ s = ground (arith, has) in
    (http_out (record h { verb = t }), rw (assign_verb, same) (rw stores), refl)
verb_assigned r _ cs s t has stores = absurd (ground (arith, has))

verb_read :
    (d : EventData) (t : EncodedShortString) {encoding : ℕ} (kept : List ℕ)
    → verb_member d ≡ some t
    → StoredShort encoding kept t
    → read_verb d ≡ done (chars kept)
unfolding read_verb read
verb_read (http_in h) t kept has k = ground (arith, has, k.content, k.valid)
verb_read (http_out h) t kept has k = ground (arith, has, k.content, k.valid)
verb_read _ t kept has k = absurd (ground (arith, has))

verb_kept :
    (r : Ruby) (e : Event) (cs : List ℕ) (s : EncodedShortString)
    → verb_member e.payload ≡ some s
    → length s.string ≡ 255
    → (e' : Event) × (rb_rg_event_aset r e id_verb (chars cs) ≡ done e')
      × (rb_rg_event_aref e' id_verb ≡ done (chars (take 127 (r.transcode ascii cs))))
      × (e'.length ≡ rg_encode_size e'.payload)
unfolding rb_rg_event_aset assign rb_rg_event_aref
verb_kept r e cs s has room =
    let (t, stores, kept) =
      encode_short_string-Stored r.transcode cs (record s { encoding = ascii }) room in
    let (d, assigns, now_has) = verb_assigned r e.payload cs s t has stores in
    (
      record e { payload = d; length = rg_encode_size d },
      ap
          (λ o.
            and_then {A = Event} (and_then o (with_data e))
              (λ x. record x { length = rg_encode_size x.payload }))
          assigns,
      verb_read d t _ now_has kept,
      refl,
    )

-- How many bytes of an attribute are kept.
abbrev pub kept_size : Attribute → ℕ
kept_size id_verb = 127
kept_size _ = 4096

long_kept :
    (a : Attribute) (d : EventData) (s : EncodedString)
    → current (string_member a d) ≡ some s
    → kept_size a ≡ 4096
unfolding string_member
long_kept id_verb d s has = absurd (ground (arith, has))
long_kept _ d s has = refl

-- Setting a string attribute that the event has, whose array has its declared size, to a string of Ruby
-- succeeds: reading it gives back the string as Ruby transcodes it, cut to 127 bytes for the verb and
-- to 4096 bytes for every other, and the length of the event is that of its command.
pub aset-aref_string :
    (r : Ruby) (e : Event) (a : Attribute) (cs : List ℕ)
    → (((s : EncodedString) × (current (string_member a e.payload) ≡ some s)
          × (length s.string ≡ max_string_size))
        ⊎ ((a ≡ id_verb)
            × ((s : EncodedShortString) × (verb_member e.payload ≡ some s)
                × (length s.string ≡ 255))))
    → (e' : Event) × (rb_rg_event_aset r e a (chars cs) ≡ done e')
      × (rb_rg_event_aref e' a ≡ done (chars (take (kept_size a) (r.transcode (encoding_of a) cs))))
      × (e'.length ≡ rg_encode_size e'.payload)
unfolding encoding_of
aset-aref_string r e a cs (inl (s, has, room)) =
    let (e', sets, reads, sized) = text_kept r e a cs s has room in
    (
      e',
      sets,
      reads
          ∙ ap (λ n. done (chars (take n (r.transcode (encoding_of a) cs))))
              (sym (long_kept a e.payload s has)),
      sized,
    )
aset-aref_string r e a cs (inr (verb, (s, has, room))) =
    subst
      (λ a.
        (e' : Event) × (rb_rg_event_aset r e a (chars cs) ≡ done e')
        × (rb_rg_event_aref e' a
            ≡ done (chars (take (kept_size a) (r.transcode (encoding_of a) cs))))
        × (e'.length ≡ rg_encode_size e'.payload))
      (sym verb) (verb_kept r e cs s has room)
