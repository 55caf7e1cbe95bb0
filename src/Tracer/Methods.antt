-- ===== src/Tracer/Methods.antt =====
-- `rb_rg_methodinfo` (ext/raygun/raygun_tracer.c): what the tracer does with a method that it sees for
-- the first time. The names are what `rb_rg_fill_class_and_method` makes of the method, the path is that
-- of its file; none has a NUL, for which Ruby would raise. The two locks are held by one thread at a
-- time.
pub mod Discovery
mod Tests
use raygun_apm_ruby.Base.{
  ℕ, ◌+◌, ◌-◌, List, [], ◌∷◌, ◌++◌, Option, none, some, Bool, true, false, ◌||◌, ◌&&◌, u32,
}
use raygun_apm_ruby.Base.{◌==◌, if◌then◌else◌, length, take, replicate}
use raygun_apm_ruby.Memory.{◌>>=◌}
use raygun_apm_ruby.Protocol.{
  EncodedString, Method, max_string_size, source_user_code, source_system, source_known_library,
  source_wait_for_synchronization,
}
use raygun_apm_ruby.Encoder.Emit.{Context, Sink, rg_methodinfo}
use raygun_apm_ruby.Coercion.Strings.{capped, rb_rg_encode_string}
use raygun_apm_ruby.Event.Slots.{ascii}
use raygun_apm_ruby.Tracer.Table.{st_lookup, st_insert}
use raygun_apm_ruby.Tracer.Filters.{
  Rax, Filters, hash, is_text, whitelisted, blacklisted, rb_rg_blacklisted_string_p,
  rb_rg_blacklisted_method_p,
}

-- "Ruby_APM_profiler_trace".
abbrev pub entrypoint : List ℕ
entrypoint =
    82 ∷ 117 ∷ 98 ∷ 121 ∷ 95 ∷ 65 ∷ 80 ∷ 77 ∷ 95 ∷ 112 ∷ 114 ∷ 111 ∷ 102 ∷ 105 ∷ 108 ∷ 101 ∷ 114
    ∷ 95 ∷ 116 ∷ 114 ∷ 97 ∷ 99 ∷ 101 ∷ []

-- What Ruby says of a method.
pub record MethodName : Type 0 where
  pub class_name : List ℕ
  pub method_name : List ℕ
  pub path : List ℕ

-- A struct on the stack before it is written.
abbrev pub unset_ascii : EncodedString
unset_ascii = record { encoding = ascii; length = 0; string = replicate max_string_size 0 }

abbrev pub kept_name : List ℕ → List ℕ
kept_name name = take (capped max_string_size (length name)) name

-- `snprintf(blacklist_needle, blacklist_needle_size, "%s#%s", …)`, without the sentinel.
unfoldable pub needle_of : MethodName → List ℕ
needle_of n =
    take
      (capped max_string_size (length n.class_name)
        + 1
        + capped max_string_size (length n.method_name))
      (n.class_name ++ (hash ++ n.method_name))

abbrev pub any_text : List ℕ → List (List ℕ) → Bool
any_text name [] = false
any_text name (t ∷ ts) = is_text t name || any_text name ts

module _ (rax : Rax) where
  -- The members of `rb_rg_tracer_t` that are about methods.
  pub record MethodTable : Type 0 where
    pub filters : Filters rax
    pub methods : ℕ  -- uint32_t, as `blacklisted`
    pub blacklisted : ℕ
    pub libraries : rax.Tree
    pub synchronization_methods : List (List ℕ)

  -- The three tests that set `rg_method->source`.
  unfoldable pub source_of : MethodTable → MethodName → ℕ
  source_of t n =
      let synchronized =
        if any_text (needle_of n) t.synchronization_methods
        then source_wait_for_synchronization
        else source_user_code in
      let in_library =
        if (rb_rg_blacklisted_string_p rax t.libraries n.path == whitelisted)
          && (synchronized == source_user_code)
        then source_known_library
        else synchronized in
      if is_text entrypoint n.method_name then source_system else in_library

  abbrev pub enter : MethodTable → ℕ → Option Method → MethodTable
  enter t method entry = record t {
    filters = record t.filters { methodinfo = st_insert method entry t.filters.methodinfo };
  }

  -- A new entry of the table, under the next function id.
  unfoldable pub new_method : MethodTable → MethodName → Method
  unfolding source_of needle_of
  new_method t n = record {
    function_id = u32 (t.methods + 1);
    encoded_size = 0;
    encoded = [];
    source = source_of t n;
    name = needle_of n;
  }

  unfoldable pub is_excluded : MethodTable → MethodName → Bool
  unfolding needle_of
  is_excluded t n =
      rb_rg_blacklisted_method_p rax t.filters (needle_of n) (kept_name n.class_name)
        (kept_name n.method_name)
      == blacklisted

  -- The result none is an access outside of an array, or of a blacklisted entry as a method; the method
  -- none is NULL. The table points to the method, so it has what `rg_methodinfo` keeps in it.
  unfoldable pub rb_rg_methodinfo :
      (ℕ → List ℕ → List ℕ)
      → {U : Type 0} → Sink U
      → Context
      → U
      → ℕ
      → MethodTable
      → ℕ
      → ℕ
      → MethodName
      → Option (Option Method × MethodTable × U × Context)
  unfolding is_excluded new_method
  rb_rg_methodinfo transcode sink ctx u now t tid method n =
      if is_excluded t n
      then some
          (none, record (enter t method none) { blacklisted = u32 (t.blacklisted + 1) }, u, ctx)
      else (rb_rg_encode_string transcode unset_ascii (some n.method_name) >>= λ method_name.
          rb_rg_encode_string transcode unset_ascii (some n.class_name) >>= λ class_name.
          elim (st_lookup method t.filters.methodinfo) [
            | some (some m) ↦ some (some m, t, u, ctx)
            | some none ↦ none
            | none ↦
                (rg_methodinfo sink ctx u now tid (new_method t n) class_name method_name >>= λ r.
                let (ret, u', ctx', m) = r in
                some (
                  some m,
                  record (enter t method (some m)) { methods = u32 (t.methods + 1) },
                  u',
                  ctx',
                ))
          ])
