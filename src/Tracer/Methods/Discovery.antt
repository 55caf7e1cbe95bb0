-- ===== src/Tracer/Methods/Discovery.antt =====
-- A method that is seen for the first time (ext/raygun/raygun_tracer.c) is entered and announced once.
use raygun_apm_ruby.Base.{
  ℕ, ◌+◌, ◌≤◌, ◌<◌, ◌≡◌, refl, ap, ◌∙◌, arith, List, Option, none, some, true, false, u32, inl, inr,
  length, take, length-replicate,
}
use raygun_apm_ruby.Memory.Laws.{bind_assoc}
use raygun_apm_ruby.Memory.{◌>>=◌}
use raygun_apm_ruby.Protocol.{EncodedString, Method, scratch_buffer_size}
use raygun_apm_ruby.Encoder.Wire.{text, body_bytes, command_bytes}
use raygun_apm_ruby.Encoder.Emit.{Context, Sink, rg_methodinfo}
use raygun_apm_ruby.Encoder.Emit.Delivery.{
  delivered, encoded, methodinfo_of, rg_methodinfo-Delivers,
}
use raygun_apm_ruby.Coercion.Strings.{rb_rg_encode_string}
use raygun_apm_ruby.Coercion.Truncation.{encode_string-Stored}
use raygun_apm_ruby.Event.Slots.{ascii}
use raygun_apm_ruby.Tracer.Table.{st_lookup, lookup-insert_self, lookup-insert}
use raygun_apm_ruby.Tracer.Filters.{Rax}
use raygun_apm_ruby.Tracer.Methods.{
  MethodName, MethodTable, unset_ascii, source_of, enter, new_method, is_excluded, rb_rg_methodinfo,
}

module _ (rax : Rax) where
  -- Every function id was counted, and each method that is followed has its own.
  pub record IsCounted (t : MethodTable rax) : Type 0 where
    pub counted :
        (k : ℕ) (m : Method)
        → st_lookup k t.filters.methodinfo ≡ some (some m)
        → (1 ≤ m.function_id) × (m.function_id ≤ t.methods)
    pub distinct :
        (j k : ℕ) (a b : Method)
        → st_lookup j t.filters.methodinfo ≡ some (some a)
        → st_lookup k t.filters.methodinfo ≡ some (some b)
        → a.function_id ≡ b.function_id
        → j ≡ k

  enter-IsCounted :
      (t : MethodTable rax) (method : ℕ) (m : Method)
      → IsCounted t
      → m.function_id ≡ t.methods + 1
      → t.methods + 1 < 4294967296
      → IsCounted (record (enter rax t method (some m)) { methods = u32 (t.methods + 1) })
  enter-IsCounted t method m v next small = record {
    counted = λ k b h. elim (lookup-insert k method (some m) (some b) t.filters.methodinfo h) [
      | inl (e, same) ↦ ground (arith, same, next, small)
      | inr (ne, old) ↦ ground (arith, v.counted k b old, small)
    ];
    distinct = λ j k a b h h' e.
        elim (lookup-insert j method (some m) (some a) t.filters.methodinfo h) [
          | inl (p, q) ↦ elim (lookup-insert k method (some m) (some b) t.filters.methodinfo h') [
            | inl (p', q') ↦ omega (arith, p, p')
            | inr (ne, old) ↦ absurd (ground (arith, e, q, next, v.counted k b old, small))
          ]
          | inr (ne, old) ↦
              elim (lookup-insert k method (some m) (some b) t.filters.methodinfo h') [
                | inl (p', q') ↦ absurd (ground (arith, e, q', next, v.counted j a old, small))
                | inr (ne', old') ↦ v.distinct j k a b old old' e
              ]
        ];
  }

  module _ (transcode : ℕ → List ℕ → List ℕ) {U : Type 0} (sink : Sink U) (ctx : Context) (u : U)
      (now : ℕ) (t : MethodTable rax) (tid method : ℕ) (n : MethodName) where
    followed_methodinfo :
        (class_name method_name : EncodedString)
        → is_excluded rax t n ≡ false
        → rb_rg_encode_string transcode unset_ascii (some n.method_name) ≡ some method_name
        → rb_rg_encode_string transcode unset_ascii (some n.class_name) ≡ some class_name
        → st_lookup method t.filters.methodinfo ≡ none
        → rb_rg_methodinfo rax transcode sink ctx u now t tid method n ≡ (
            rg_methodinfo sink ctx u now tid (new_method rax t n) class_name method_name >>= λ r.
            some (
              some r.3,
              record (enter rax t method (some r.3)) { methods = u32 (t.methods + 1) },
              r.1,
              r.2,
            ))
    unfolding rb_rg_methodinfo
    followed_methodinfo class_name method_name followed m c unknown =
        rw (rb_rg_methodinfo, followed) (rw m (rw c (rw unknown)))

    -- With a scratch buffer of its declared size, function ids left and all given ids counted, a method
    -- that the filters do not exclude and that is not in the table is entered under the next function
    -- id, which no other method has, with the source that its name and file say; it is handed to the
    -- sink once, with its names as Ruby transcodes them, cut to 4096 bytes; and the table keeps the
    -- bytes of the announcement.
    pub methodinfo-discovers :
        is_excluded rax t n ≡ false
        → st_lookup method t.filters.methodinfo ≡ none
        → IsCounted t
        → t.methods + 1 < 4294967296
        → length ctx.buf ≡ scratch_buffer_size
        → (m : Method) × (t' : MethodTable rax) × (class_name method_name : EncodedString)
          × (rb_rg_methodinfo rax transcode sink ctx u now t tid method n ≡ (
              sink
                (encoded ctx now tid (methodinfo_of m class_name method_name))
                u
                (some (delivered ctx now tid (methodinfo_of m class_name method_name)))
                (19 + length (body_bytes (methodinfo_of m class_name method_name)))
              >>= λ r.
                  some (
                    some m,
                    t',
                    r.1,
                    encoded ctx now tid (methodinfo_of m class_name method_name),
                  )))
          × IsCounted t'
          × (st_lookup method t'.filters.methodinfo ≡ some (some m))
          × (m.function_id ≡ t.methods + 1)
          × (m.source ≡ source_of rax t n)
          × (m.encoded
              ≡ command_bytes (delivered ctx now tid (methodinfo_of m class_name method_name)))
          × (text class_name ≡ take 4096 (transcode ascii n.class_name))
          × (text method_name ≡ take 4096 (transcode ascii n.method_name))
    unfolding rb_rg_methodinfo new_method
    methodinfo-discovers followed unknown v small room =
        let (mn, stores_method, s) =
          encode_string-Stored transcode n.method_name unset_ascii
            (length-replicate {A = ℕ} 4096 0) in
        let (cn, stores_class, s') =
          encode_string-Stored transcode n.class_name unset_ascii
            (length-replicate {A = ℕ} 4096 0) in
        let m₀ = new_method rax t n in
        let d = methodinfo_of m₀ cn mn in
        let m : Method = record m₀ {
          encoded_size = 19 + length (body_bytes d);
          encoded = command_bytes (delivered ctx now tid d);
        } in
        let delivers = rg_methodinfo-Delivers sink ctx u now tid m₀ cn mn s'.valid s.valid room in
        let answer : Option (ℕ × U) =
          sink (encoded ctx now tid d) u (some (delivered ctx now tid d))
            (19 + length (body_bytes d)) in
        let keep : ℕ × U → Option (ℕ × U × Context × Method) =
          λ r. some (r.0, r.1, encoded ctx now tid d, m) in
        let store : ℕ × U × Context × Method
            → Option (Option Method × MethodTable rax × U × Context) =
          λ r. some (
            some r.3,
            record (enter rax t method (some r.3)) { methods = u32 (t.methods + 1) },
            r.1,
            r.2,
          ) in
        (
          m,
          record (enter rax t method (some m)) { methods = u32 (t.methods + 1) },
          cn,
          mn,
          followed_methodinfo cn mn followed stores_method stores_class unknown
              ∙ ap (λ o. o >>= store) delivers
              ∙ bind_assoc answer keep store,
          enter-IsCounted t method m v (omega (arith, small)) small,
          lookup-insert_self method (some m) t.filters.methodinfo,
          omega (arith, small),
          refl,
          refl,
          s'.content,
          s.content,
        )

    -- With all given ids counted, a method that the filters exclude is entered as such, and counted;
    -- nothing is announced, the sink is not called, no function id is used, and the ids of the other
    -- methods stay their own.
    pub methodinfo-excludes :
        is_excluded rax t n ≡ true
        → IsCounted t
        → (t' : MethodTable rax) × (rb_rg_methodinfo rax transcode sink ctx u now t tid method n
            ≡ some (none, t', u, ctx))
          × IsCounted t'
          × (st_lookup method t'.filters.methodinfo ≡ some none)
          × (t'.methods ≡ t.methods)
          × (t'.blacklisted ≡ u32 (t.blacklisted + 1))
    unfolding rb_rg_methodinfo
    methodinfo-excludes excluded v = (
      record (enter rax t method none) { blacklisted = u32 (t.blacklisted + 1) },
      rw (rb_rg_methodinfo, excluded),
      record {
        counted = λ k b h. elim (lookup-insert k method none (some b) t.filters.methodinfo h) [
          | inl (e, same) ↦ absurd (ground (arith, same))
          | inr (ne, old) ↦ v.counted k b old
        ];
        distinct = λ j k a b h h' e.
            elim (lookup-insert j method none (some a) t.filters.methodinfo h) [
              | inl (p, q) ↦ absurd (ground (arith, q))
              | inr (ne, old) ↦
                  elim (lookup-insert k method none (some b) t.filters.methodinfo h') [
                    | inl (p', q') ↦ absurd (ground (arith, q'))
                    | inr (ne', old') ↦ v.distinct j k a b old old' e
                  ]
            ];
      },
      lookup-insert_self method none t.filters.methodinfo,
      refl,
      refl,
    )
