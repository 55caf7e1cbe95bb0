-- ===== src/Tracer/Methods/Tests.antt =====
-- The discovery of a method (ext/raygun/raygun_tracer.c) with concrete filters.
use raygun_apm_ruby.Base.{
  ℕ, ◌+◌, ◌≡◌, refl, arith, List, [], ◌∷◌, Option, none, some, u32, length, take, replicate,
  length-replicate,
}
use raygun_apm_ruby.Memory.{◌>>=◌}
use raygun_apm_ruby.Protocol.{EncodedString, Method}
use raygun_apm_ruby.Encoder.Wire.{text, body_bytes, command_bytes}
use raygun_apm_ruby.Encoder.Emit.{Context, Sink}
use raygun_apm_ruby.Encoder.Emit.Delivery.{delivered, encoded, methodinfo_of}
use raygun_apm_ruby.Tracer.Table.{st_lookup}
use raygun_apm_ruby.Tracer.Filters.{
  Rax, scan, path_edge_cases, rb_rg_blacklisted_string_p, inexact_match, rb_rg_blacklisted_method_p,
}
use raygun_apm_ruby.Tracer.Methods.{
  MethodName, MethodTable, source_of, is_excluded, rb_rg_methodinfo,
}
use raygun_apm_ruby.Tracer.Methods.Discovery.{IsCounted, methodinfo-discovers, methodinfo-excludes}

-- A tree that has one rule for all keys, or none.
abbrev constant : Rax
constant = record {
  Tree = Option ℕ;
  insert = λ t k d. some d;
  find = λ t k. t;
  walk = λ t k. (0, []);
  iterate = λ t k. [];
}

abbrev table_with : Option ℕ → MethodTable constant
table_with rule = record {
  filters = record {
    blacklist = none;
    blacklist_fq = rule;
    blacklist_paths = none;
    blacklist_methods = none;
    methodinfo = [];
  };
  methods = 4;
  blacklisted = 0;
  libraries = none;
  synchronization_methods = [];
}

table_with-IsCounted : (rule : Option ℕ) → IsCounted constant (table_with rule)
table_with-IsCounted rule = record {
  counted = λ k m h. absurd (ground (arith, h));
  distinct = λ j k a b h h' e. absurd (ground (arith, h));
}

abbrev a_name : MethodName
a_name = record { class_name = 65 ∷ []; method_name = 98 ∷ []; path = 47 ∷ [] }

abbrev counting : Sink (List ℕ)
counting ctx sizes event n = some (1, n ∷ sizes)

abbrev scratch : Context
scratch = record { pid = 7; buf = replicate 32768 0 }

abbrev unchanged : ℕ → List ℕ → List ℕ
unchanged encoding cs = cs

methodinfo-discovers_example :
    (m : Method) × (t' : MethodTable constant) × (class_name method_name : EncodedString)
    × (rb_rg_methodinfo constant unchanged counting scratch [] 5 (table_with none) 3 77 a_name ≡ (
        counting
          (encoded scratch 5 3 (methodinfo_of m class_name method_name))
          []
          (some (delivered scratch 5 3 (methodinfo_of m class_name method_name)))
          (19 + length (body_bytes (methodinfo_of m class_name method_name)))
        >>= λ r.
            some (some m, t', r.1, encoded scratch 5 3 (methodinfo_of m class_name method_name))))
    × IsCounted constant t'
    × (st_lookup 77 t'.filters.methodinfo ≡ some (some m))
    × (m.function_id ≡ 5)
    × (m.source ≡ source_of constant (table_with none) a_name)
    × (m.encoded ≡ command_bytes (delivered scratch 5 3 (methodinfo_of m class_name method_name)))
    × (text class_name ≡ take 4096 (65 ∷ []))
    × (text method_name ≡ take 4096 (98 ∷ []))
unfolding is_excluded rb_rg_blacklisted_method_p inexact_match path_edge_cases
    rb_rg_blacklisted_string_p scan
methodinfo-discovers_example =
    methodinfo-discovers constant unchanged counting scratch [] 5 (table_with none) 3 77 a_name refl
      refl (table_with-IsCounted none) (omega arith) (length-replicate {A = ℕ} 32768 0)

methodinfo-excludes_example :
    (t' : MethodTable constant) × (rb_rg_methodinfo constant unchanged counting scratch [] 5
        (table_with (some 2))
        3
        77
        a_name
      ≡ some (none, t', [], scratch))
    × IsCounted constant t'
    × (st_lookup 77 t'.filters.methodinfo ≡ some none)
    × (t'.methods ≡ 4)
    × (t'.blacklisted ≡ u32 (0 + 1))
unfolding is_excluded rb_rg_blacklisted_method_p
methodinfo-excludes_example =
    methodinfo-excludes constant unchanged counting scratch [] 5 (table_with (some 2)) 3 77 a_name
      refl (table_with-IsCounted (some 2))
