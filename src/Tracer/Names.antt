-- ===== src/Tracer/Names.antt =====
-- How the tracer names a method (ext/raygun/raygun_tracer.c): `rb_rg_class_to_str`,
-- `rb_rg_fill_class_and_method` and `rb_rg_method_id`. The hashes are Ruby's; a VALUE is a number.
use raygun_apm_ruby.Base.{ℕ, List, [], ◌∷◌, Option, none, some, ◌==◌, if◌then◌else◌}
use raygun_apm_ruby.Tracer.Filters.{is_text}
use raygun_apm_ruby.Tracer.Methods.{MethodName}

-- A class as Ruby's objects show it: a class or module with its path, or the singleton class of a class
-- or module, or that of another object, of which the class counts.
pub data Klass : Type 0 where
  named : List ℕ → Klass
  singleton_of_class : Klass → Klass
  singleton_of_object : Klass → Klass

-- What the tracepoint says of a call or a return.
pub record TraceArg : Type 0 where
  pub namespace : ℕ  -- VALUE of the defining class
  pub klass : Klass
  pub method_id : ℕ  -- VALUE of the symbol
  pub method_name : List ℕ
  pub path : List ℕ
  pub self : ℕ  -- VALUE of the receiver

-- Ruby's hash functions, on words of 64 bits.
pub record Hashes : Type 0 where
  pub rb_hash_start : ℕ → ℕ
  pub rb_hash_uint : ℕ → ℕ → ℕ
  pub rb_hash_end : ℕ → ℕ
  pub rb_str_hash : List ℕ → ℕ

abbrev pub env_development : ℕ
env_development = 1

abbrev pub env_production : ℕ
env_production = 2

unfoldable pub rb_rg_class_to_str : Klass → List ℕ
rb_rg_class_to_str (named path) = path
rb_rg_class_to_str (singleton_of_class klass) = rb_rg_class_to_str klass
rb_rg_class_to_str (singleton_of_object klass) = rb_rg_class_to_str klass

-- `st_lookup` in a table of strings.
unfoldable pub st_lookup_text : List ℕ → List (List ℕ × List ℕ) → Option (List ℕ)
st_lookup_text name [] = none
st_lookup_text name ((key, value) ∷ t) =
    let rest = st_lookup_text name t in if is_text key name then some value else rest

-- The table translates the names of the profiler's own hooks.
unfoldable pub rb_rg_fill_class_and_method : List (List ℕ × List ℕ) → TraceArg → MethodName
unfolding rb_rg_class_to_str
rb_rg_fill_class_and_method builtin_translator tparg =
    let class_name = rb_rg_class_to_str tparg.klass in
    record {
      class_name = elim (st_lookup_text class_name builtin_translator) [
        | some replacement ↦ replacement
        | none ↦ class_name
      ];
      method_name = tparg.method_name;
      path = tparg.path;
    }

module _ (h : Hashes) where
  unfoldable pub rb_rg_method_id_production : ℕ → ℕ → ℕ
  rb_rg_method_id_production namespace method =
      h.rb_hash_end (h.rb_hash_uint (h.rb_hash_start namespace) method)

  unfoldable pub rb_rg_method_id_development : List (List ℕ × List ℕ) → TraceArg → ℕ
  unfolding rb_rg_fill_class_and_method
  rb_rg_method_id_development builtin_translator tparg =
      let n = rb_rg_fill_class_and_method builtin_translator tparg in
      h.rb_hash_end (
        h.rb_hash_uint (h.rb_hash_start (h.rb_str_hash n.class_name)) (h.rb_str_hash n.method_name))

  unfoldable pub rb_rg_method_id : ℕ → List (List ℕ × List ℕ) → TraceArg → ℕ
  unfolding rb_rg_method_id_production rb_rg_method_id_development
  rb_rg_method_id environment builtin_translator tparg =
      if environment == env_production
      then rb_rg_method_id_production tparg.namespace tparg.method_id
      else rb_rg_method_id_development builtin_translator tparg
