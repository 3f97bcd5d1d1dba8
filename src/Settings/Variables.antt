-- ===== src/Settings/Variables.antt =====
-- What becomes of the variables in a text of the configuration.
use asb_cloud_api.Base.{
  ◌≡◌, refl, ◌≢◌, ◌∙◌, ap, sym, ℕ, Option, none, some, List, [], ◌∷◌, ◌++◌, arith, All, nat_eq,
}
use mathlib.Core.List.{append_assoc, append-nil}
use asb_cloud_api.Settings.{
  Environment, outside, in_name, in_default, without_dash, value_of, substitute,
}

-- A character that is in no variable's beginning.
abbrev pub IsPlain : ℕ → Type 0
IsPlain c = c ≢ b'$'

abbrev pub IsNameCode : ℕ → Type 0
IsNameCode c = (c ≢ b'}') × (c ≢ b':')

abbrev pub IsDefaultCode : ℕ → Type 0
IsDefaultCode c = c ≢ b'}'

module _ (env : Environment) where
  -- Text without `$` is copied.
  substitute-plain :
      (s rest : List ℕ)
      → All IsPlain s
      → substitute env outside (s ++ rest) ≡ s ++ substitute env outside rest
  unfolding substitute
  substitute-plain [] rest plain = refl
  substitute-plain (c ∷ s) rest plain = ground (arith, substitute-plain s rest plain.1, plain.0)

  substitute-name :
      (n : ℕ) (name more rest : List ℕ)
      → All IsNameCode more
      → substitute env (in_name (n ∷ name)) (more ++ rest)
        ≡ substitute env (in_name (n ∷ (name ++ more))) rest
  unfolding substitute
  substitute-name n name [] rest codes =
      ap (λ x. substitute env (in_name (n ∷ x)) rest) (sym (append-nil name))
  substitute-name n name (c ∷ more) rest codes =
      let moved : (name ++ (c ∷ [])) ++ more ≡ name ++ (c ∷ more) =
        append_assoc name (c ∷ []) more in
      ground (arith, codes.0, substitute-name n (name ++ (c ∷ [])) more rest codes.1, moved)

  substitute-default :
      (name default more rest : List ℕ)
      → All IsDefaultCode more
      → substitute env (in_default name default) (more ++ (b'}' ∷ rest))
        ≡ value_of env name (without_dash (default ++ more)) ++ substitute env outside rest
  unfolding substitute
  substitute-default name default [] rest codes = ground (arith, append-nil default)
  substitute-default name default (c ∷ more) rest codes =
      let moved : (default ++ (c ∷ [])) ++ more ≡ default ++ (c ∷ more) =
        append_assoc default (c ∷ []) more in
      ground
        (arith, codes.0, substitute-default name (default ++ (c ∷ [])) more rest codes.1, moved)

-- A variable as it is written, with a default after `:-` or none, before the rest of a text.
abbrev pub written : List ℕ → Option (List ℕ) → List ℕ → List ℕ
written name none rest = b'$' ∷ b'{' ∷ (name ++ (b'}' ∷ rest))
written name (some default) rest =
    b'$' ∷ b'{' ∷ (name ++ (b':' ∷ b'-' ∷ (default ++ (b'}' ∷ rest))))

abbrev pub HasDefaultCodes : Option (List ℕ) → Type 0
HasDefaultCodes none = Unit
HasDefaultCodes (some default) = All IsDefaultCode default

-- The value in the environment, or the default, or nothing.
abbrev pub resolved : Environment → List ℕ → Option (List ℕ) → List ℕ
resolved env name none = value_of env name []
resolved env name (some default) = value_of env name default

substitute-written :
    (env : Environment) (n : ℕ) (name : List ℕ) (default : Option (List ℕ)) (rest : List ℕ)
    → All IsNameCode (n ∷ name)
    → HasDefaultCodes default
    → substitute env outside (written (n ∷ name) default rest)
      ≡ resolved env (n ∷ name) default ++ substitute env outside rest
unfolding substitute
substitute-written env n name none rest codes default_codes =
    ground (arith, codes.0, substitute-name env n [] name (b'}' ∷ rest) codes.1)
substitute-written env n name (some default) rest codes default_codes = ground (
  arith,
  codes.0,
  substitute-name env n [] name (b':' ∷ b'-' ∷ (default ++ (b'}' ∷ rest))) codes.1,
  substitute-default env (n ∷ name) (b'-' ∷ []) default rest default_codes,
)

-- In a text of the configuration a variable becomes its value in the environment, or else its
-- default, or else nothing; what is before it, without a `$`, stays, the value is not read again,
-- and the scan goes on behind it. The name is not empty and has neither `}` nor `:`, the default has
-- no `}`.
pub substitute-variable :
    (env : Environment) (before : List ℕ) (n : ℕ) (name : List ℕ) (default : Option (List ℕ))
    (rest : List ℕ)
    → All IsPlain before
    → All IsNameCode (n ∷ name)
    → HasDefaultCodes default
    → substitute env outside (before ++ written (n ∷ name) default rest)
      ≡ before ++ (resolved env (n ∷ name) default ++ substitute env outside rest)
substitute-variable env before n name default rest plain codes default_codes =
    substitute-plain env before (written (n ∷ name) default rest) plain
    ∙ ap (λ x. before ++ x) (substitute-written env n name default rest codes default_codes)
