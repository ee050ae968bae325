-- ===== src/Glob/Base/Tests.antt =====
-- Runs of `resolveBaseDir`.
use ydsh.Prelude.{[], refl, some, ◌∷◌, ◌≡◌}
use ydsh.Glob.{Pattern, literal, zero_or_more}
use ydsh.Glob.Base.{resolve_base_dir, last_sep}
use ydsh.Glob.Base.Start.{resolve_base_dir_lem, Located}

-- "ab//c*" below "/x".
abbrev deep : Pattern
deep = literal 97 ∷ literal 98 ∷ literal 47 ∷ literal 47 ∷ literal 99 ∷ zero_or_more ∷ []

resolve_base_dir_lem_example :
    Located
      (λ t. t)
      (some (47 ∷ 120 ∷ []))
      deep
      (last_sep deep)
      (resolve_base_dir (λ t. t) (some (47 ∷ 120 ∷ [])) deep)
resolve_base_dir_lem_example = resolve_base_dir_lem (λ t. t) (some (47 ∷ 120 ∷ [])) deep

starts_below :
    resolve_base_dir (λ t. t) (some (47 ∷ 120 ∷ [])) deep
    ≡ (47 ∷ 120 ∷ 47 ∷ 97 ∷ 98 ∷ 47 ∷ [], literal 99 ∷ zero_or_more ∷ [])
unfolding resolve_base_dir
starts_below = refl
