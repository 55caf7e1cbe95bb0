-- ===== src/Tracer/Filters/Tests.antt =====
-- Filters (ext/raygun/raygun_tracer.c) over a concrete tree.
use raygun_apm_ruby.Base.{
  ℕ, ◌≡◌, refl, arith, List, [], ◌∷◌, ◌++◌, Option, none, some, true, false, if◌then◌else◌, length,
}
use raygun_apm_ruby.Tracer.Filters.{
  Rax, Filters, hash, whitelisted, blacklisted, unlisted, starts_with, is_text,
  rb_rg_blacklisted_string_p, rb_rg_tracer_add_blacklist, rb_rg_tracer_add_whitelist,
  rb_rg_tracer_blacklisted_p, rb_rg_tracer_whitelisted_p,
}
use raygun_apm_ruby.Tracer.Filters.Walk.{any_whitelisted, outermost, string_p-outermost}
use raygun_apm_ruby.Tracer.Filters.Rules.{IsMap, add_exact-decides, add_path-decides}

abbrev Entries : Type 0
Entries = List (List ℕ × ℕ)

abbrev find_entry : Entries → List ℕ → Option ℕ
find_entry [] key = none
find_entry ((k, d) ∷ t) key = let rest = find_entry t key in if is_text k key then some d else rest

abbrev prefixes : Entries → List ℕ → List (Option ℕ)
prefixes [] key = []
prefixes ((k, d) ∷ t) key =
    let rest = prefixes t key in if starts_with key k then some d ∷ rest else rest

-- The tree as a list of Entries, the last one first.
abbrev listed : Rax
listed = record {
  Tree = Entries;
  insert = λ t k d. (k, d) ∷ t;
  find = find_entry;
  walk = λ t key. (length (prefixes t key), prefixes t key);
  iterate = λ t key. t;
}

is_text_refl : (xs : List ℕ) → is_text xs xs ≡ true
is_text_refl [] = refl
is_text_refl (x ∷ xs) = ground (arith, is_text_refl xs)

listed-IsMap : IsMap listed
listed-IsMap = record { found = λ t k d. ground (arith, is_text_refl k) }

abbrev no_filters : Filters listed
no_filters = record {
  blacklist = [];
  blacklist_fq = [];
  blacklist_paths = [];
  blacklist_methods = [];
  methodinfo = (1, none) ∷ [];
}

-- "A" and "b".
abbrev a_class : List ℕ
a_class = 65 ∷ []

abbrev a_method : List ℕ
a_method = 98 ∷ []

add_exact-decides_example :
    let (added, t') = rb_rg_tracer_add_blacklist listed no_filters (some a_class) (some a_method) in
    let (added', t'') = rb_rg_tracer_add_whitelist listed t' (some a_class) (some a_method) in
    (rb_rg_tracer_blacklisted_p listed t' (a_class ++ (hash ++ a_method)) a_class a_method ≡ true)
    × (rb_rg_tracer_whitelisted_p listed t'' (a_class ++ (hash ++ a_method)) a_class a_method
        ≡ true)
    × (rb_rg_tracer_blacklisted_p listed t'' (a_class ++ (hash ++ a_method)) a_class a_method
        ≡ false)
    × (t'.methodinfo ≡ [])
add_exact-decides_example =
    add_exact-decides listed listed-IsMap no_filters a_class a_method a_class a_method

add_path-decides_example :
    let (added, by_path) = rb_rg_tracer_add_blacklist listed no_filters (some a_class) none in
    let (added', by_method) = rb_rg_tracer_add_blacklist listed no_filters none (some a_method) in
    (rb_rg_tracer_blacklisted_p listed by_path (65 ∷ 35 ∷ 98 ∷ []) a_class a_method ≡ true)
    × (rb_rg_tracer_blacklisted_p listed by_method (65 ∷ 35 ∷ 98 ∷ []) a_class a_method ≡ true)
    × (by_path.methodinfo ≡ [])
    × (by_method.methodinfo ≡ [])
add_path-decides_example =
    add_path-decides listed listed-IsMap no_filters a_class a_method (65 ∷ 35 ∷ 98 ∷ []) a_class
      refl refl

abbrev two_rules : Entries
two_rules = ((65 ∷ 66 ∷ []), blacklisted) ∷ ((65 ∷ []), whitelisted) ∷ []

string_p-outermost_example : rb_rg_blacklisted_string_p listed two_rules (65 ∷ 66 ∷ 67 ∷ []) ≡ (
    if any_whitelisted (listed.walk two_rules (65 ∷ 66 ∷ 67 ∷ [])).1
    then whitelisted
    else outermost (listed.walk two_rules (65 ∷ 66 ∷ 67 ∷ [])).1 unlisted)
string_p-outermost_example =
    string_p-outermost listed two_rules (65 ∷ 66 ∷ 67 ∷ []) (λ e. omega (arith, e))
