-- ===== src/Tracer/Filters/Rules.antt =====
-- A rule that is added holds (ext/raygun/raygun_tracer.c).
use raygun_apm_ruby.Base.{ℕ, ◌≡◌, refl, arith, List, [], ◌++◌, none, some, true, false}
use raygun_apm_ruby.Tracer.Filters.{
  Rax, Filters, hash, whitelisted, blacklisted, rb_rg_tracer_add_blacklist,
  rb_rg_tracer_add_whitelist, rb_rg_tracer_blacklisted_p, rb_rg_tracer_whitelisted_p,
}

-- What is documented of the radix tree: an inserted key is found with its data.
pub record IsMap (rax : Rax) : Type 0 where
  pub found : (t : rax.Tree) (k : List ℕ) (d : ℕ) → rax.find (rax.insert t k d) k ≡ some d

module _ (rax : Rax) (map : IsMap rax) (t : Filters rax) (path method : List ℕ) where
  -- A rule for a method of a class decides over that method, whatever other rules there are, as the
  -- last rule for it says; the methods that were discovered before are forgotten.
  pub add_exact-decides :
      (other_path other_method : List ℕ)
      → let (added, t') = rb_rg_tracer_add_blacklist rax t (some path) (some method) in
        let (added', t'') = rb_rg_tracer_add_whitelist rax t' (some path) (some method) in
        (rb_rg_tracer_blacklisted_p rax t' (path ++ (hash ++ method)) other_path other_method
          ≡ true)
        × (rb_rg_tracer_whitelisted_p rax t'' (path ++ (hash ++ method)) other_path other_method
            ≡ true)
        × (rb_rg_tracer_blacklisted_p rax t'' (path ++ (hash ++ method)) other_path other_method
            ≡ false)
        × (t'.methodinfo ≡ [])
  unfolding rb_rg_tracer_add_blacklist rb_rg_tracer_add_whitelist rb_rg_tracer_blacklisted_p
      rb_rg_tracer_whitelisted_p
  add_exact-decides other_path other_method =
      let needle = path ++ (hash ++ method) in
      let black = map.found t.blacklist_fq needle blacklisted in
      let white = map.found (rax.insert t.blacklist_fq needle blacklisted) needle whitelisted in
      (ground (arith, black), ground (arith, white), ground (arith, white), refl)

  -- A blacklist rule for a class decides over a method without a rule of its own, and a blacklist rule
  -- for a method of any class over one that has no rule by its class either; the methods that were
  -- discovered before are forgotten.
  pub add_path-decides :
      (fully_qualified other : List ℕ)
      → rax.find t.blacklist_fq fully_qualified ≡ none
      → rax.find t.blacklist_paths other ≡ none
      → let (added, by_path) = rb_rg_tracer_add_blacklist rax t (some path) none in
        let (added', by_method) = rb_rg_tracer_add_blacklist rax t none (some method) in
        (rb_rg_tracer_blacklisted_p rax by_path fully_qualified path method ≡ true)
        × (rb_rg_tracer_blacklisted_p rax by_method fully_qualified other method ≡ true)
        × (by_path.methodinfo ≡ [])
        × (by_method.methodinfo ≡ [])
  unfolding rb_rg_tracer_add_blacklist rb_rg_tracer_blacklisted_p
  add_path-decides fully_qualified other no_fq no_path =
      let by_path = map.found t.blacklist_paths path blacklisted in
      let by_method = map.found t.blacklist_methods method blacklisted in
      (ground (arith, no_fq, by_path), ground (arith, no_fq, no_path, by_method), refl, refl)
