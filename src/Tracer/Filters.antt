-- ===== src/Tracer/Filters.antt =====
-- The filters of the tracer (ext/raygun/raygun_tracer.c), which say what methods are followed. The
-- radix trees are a third-party library's, a parameter. Strings hold no NUL byte, which
-- `StringValueCStr` sees to.
pub mod Rules
pub mod Walk
mod Tests
use raygun_apm_ruby.Base.{
  ℕ, zero, suc, ◌-◌, List, [], ◌∷◌, ◌++◌, Option, none, some, Bool, true, false, ◌&&◌, ◌||◌, not,
}
use raygun_apm_ruby.Base.{ltb, leb, ◌==◌, if◌then◌else◌, length, drop}
use raygun_apm_ruby.Protocol.{Method}

abbrev pub unlisted : ℕ
unlisted = 0

abbrev pub whitelisted : ℕ
whitelisted = 1

abbrev pub blacklisted : ℕ
blacklisted = 2

-- What the code uses of ext/raygun/rax.h, memory given. A walk is the number of bytes that matched and
-- the nodes from the last one up, with the data of those that are keys; an iteration is the keys with
-- their data, from the last one that is not above the given one.
pub record Rax : Type 1 where
  pub Tree : Type 0
  pub insert : Tree → List ℕ → ℕ → Tree
  pub find : Tree → List ℕ → Option ℕ
  pub walk : Tree → List ℕ → ℕ × List (Option ℕ)
  pub iterate : Tree → List ℕ → List (List ℕ × ℕ)

-- The loop up the nodes: it stops at a whitelisted key.
unfoldable pub scan : List (Option ℕ) → ℕ → ℕ
scan [] found = found
scan (none ∷ nodes) found = scan nodes found
scan (some data_ ∷ nodes) found =
    let rest = scan nodes data_ in if data_ == whitelisted then data_ else rest

-- `strncmp(key, path, 1) > 0`.
abbrev pub first_byte : List ℕ → ℕ
first_byte [] = 0
first_byte (b ∷ bs) = b

-- `strncmp(text, key, length of key) == 0`.
abbrev pub starts_with : List ℕ → List ℕ → Bool
starts_with text [] = true
starts_with [] (k ∷ ks) = false
starts_with (b ∷ bs) (k ∷ ks) = let rest = starts_with bs ks in (b == k) && rest

abbrev pub is_text : List ℕ → List ℕ → Bool
is_text [] [] = true
is_text (a ∷ xs) (b ∷ ys) = let rest = is_text xs ys in (a == b) && rest
is_text _ _ = false

-- "::" and "#".
abbrev pub colons : List ℕ
colons = 58 ∷ 58 ∷ []

abbrev pub hash : List ℕ
hash = 35 ∷ []

abbrev pub ends_with : List ℕ → List ℕ → Bool
ends_with key suffix = is_text (drop (length key - length suffix) key) suffix

-- The loop over the paths: a rule for a namespace or for all methods of a class.
unfoldable pub path_edge_cases : List ℕ → List ℕ → List (List ℕ × ℕ) → Option ℕ
path_edge_cases fully_qualified path [] = none
path_edge_cases fully_qualified path ((key, data_) ∷ keys) =
    let rest = path_edge_cases fully_qualified path keys in
    if ltb (first_byte path) (first_byte key)
    then none
    else if ltb 2 (length key) && (ends_with key colons && starts_with fully_qualified key)
    then some data_
    else if ltb 2 (length key) && (ends_with key hash && starts_with fully_qualified key)
    then some data_
    else rest

module _ (rax : Rax) where
  open rax use {Tree, insert, find, walk, iterate}

  -- The members of `rb_rg_tracer_t` that are about filters. A method that is not followed is none.
  pub record Filters : Type 0 where
    pub blacklist : Tree
    pub blacklist_fq : Tree
    pub blacklist_paths : Tree
    pub blacklist_methods : Tree
    pub methodinfo : List (ℕ × Option Method)

  unfoldable pub rb_rg_blacklisted_string_p : Tree → List ℕ → ℕ
  unfolding scan
  rb_rg_blacklisted_string_p tree needle =
      let (i, nodes) = walk tree needle in if i == 0 then unlisted else scan nodes unlisted

  -- After the three exact matches: the edge cases, then the prefixes of the path and of the method.
  unfoldable pub inexact_match : Filters → List ℕ → List ℕ → List ℕ → ℕ
  unfolding path_edge_cases rb_rg_blacklisted_string_p
  inexact_match t fully_qualified path method =
      let by_path = rb_rg_blacklisted_string_p t.blacklist_paths path in
      elim (path_edge_cases fully_qualified path (iterate t.blacklist_paths path)) [
        | some data_ ↦ data_
        | none ↦
            if not (by_path == unlisted)
            then by_path
            else rb_rg_blacklisted_string_p t.blacklist_methods method
      ]

  unfoldable pub rb_rg_blacklisted_method_p : Filters → List ℕ → List ℕ → List ℕ → ℕ
  unfolding inexact_match
  rb_rg_blacklisted_method_p t fully_qualified path method =
      elim (find t.blacklist_fq fully_qualified) [
        | some data_ ↦ data_
        | none ↦ elim (find t.blacklist_paths path) [
          | some data_ ↦ data_
          | none ↦ elim (find t.blacklist_methods method) [
            | some data_ ↦ data_
            | none ↦ inexact_match t fully_qualified path method
          ]
        ]
      ]

  -- The end of `rb_rg_tracer_blacklist_add0`: the generic tree, and `rb_rg_flush_caches`.
  unfoldable pub add_needle : Filters → List ℕ → ℕ → Filters
  add_needle t needle data_ = record t {
    blacklist = insert t.blacklist needle data_;
    methodinfo = [];
  }

  -- A path or method that is `nil` is none. The Boolean is what is returned.
  unfoldable pub rb_rg_tracer_blacklist_add0 :
      Filters → Option (List ℕ) → Option (List ℕ) → ℕ → Bool × Filters
  unfolding add_needle
  rb_rg_tracer_blacklist_add0 t none none data_ = (false, t)
  rb_rg_tracer_blacklist_add0 t (some path) (some method) data_ =
      let needle = path ++ (hash ++ method) in
      (
        true,
        add_needle (record t { blacklist_fq = insert t.blacklist_fq needle data_ }) needle data_,
      )
  rb_rg_tracer_blacklist_add0 t (some path) none data_ = (
    true,
    add_needle (record t { blacklist_paths = insert t.blacklist_paths path data_ }) path data_,
  )
  rb_rg_tracer_blacklist_add0 t none (some method) data_ = (
    true,
    add_needle (record t { blacklist_methods = insert t.blacklist_methods method data_ }) method
        data_,
  )

  unfoldable pub rb_rg_tracer_add_blacklist :
      Filters → Option (List ℕ) → Option (List ℕ) → Bool × Filters
  unfolding rb_rg_tracer_blacklist_add0
  rb_rg_tracer_add_blacklist t path method = rb_rg_tracer_blacklist_add0 t path method blacklisted

  unfoldable pub rb_rg_tracer_add_whitelist :
      Filters → Option (List ℕ) → Option (List ℕ) → Bool × Filters
  unfolding rb_rg_tracer_blacklist_add0
  rb_rg_tracer_add_whitelist t path method = rb_rg_tracer_blacklist_add0 t path method whitelisted

  unfoldable pub rb_rg_tracer_blacklisted_p : Filters → List ℕ → List ℕ → List ℕ → Bool
  unfolding rb_rg_blacklisted_method_p
  rb_rg_tracer_blacklisted_p t fully_qualified path method =
      rb_rg_blacklisted_method_p t fully_qualified path method == blacklisted

  unfoldable pub rb_rg_tracer_whitelisted_p : Filters → List ℕ → List ℕ → List ℕ → Bool
  unfolding rb_rg_blacklisted_method_p
  rb_rg_tracer_whitelisted_p t fully_qualified path method =
      (rb_rg_blacklisted_method_p t fully_qualified path method == whitelisted)
      || (rb_rg_blacklisted_method_p t fully_qualified path method == unlisted)
