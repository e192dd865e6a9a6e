-- ===== src/Access/Keys.antt =====
-- What a key opens: `configured_key_map` and `authenticate_api_key` of backend/app/core/security.py.
use ai_repo.Prelude.{
  String, ◌≡◌, ◌≤◌, refl, sym, ap, ◌∙◌, ◌↔◌, inl, inr, Option, none, some, Bool, true, false, ◌&&◌,
  List, [], ◌∷◌, leb, ◌==◌, eq_iff, if◌then◌else◌, Bool-cases, Option-cases, arith,
}
use ai_repo.Domain.{lookup}
use ai_repo.Text.{non_empty}
use ai_repo.Access.{
  Role, anonymous, viewer, analyst, admin, super_admin, role_rank, has_role, set_item, Settings,
  with_key, configured_key_map, authenticate_api_key,
}

-- A read after a write: the written value at its key, and the old answer elsewhere.
pub lookup-set_item :
    {V : Type 0} (key asked : String) (value : V) (entries : List (String × V))
    → lookup asked (set_item key value entries)
      ≡ (if key == asked then some value else lookup asked entries)
unfolding lookup set_item
lookup-set_item key asked value [] = refl
lookup-set_item key asked value (entry ∷ entries) =
    let later = lookup-set_item key asked value entries in
    ground (arith, later, eq_iff key entry.0, eq_iff key asked, eq_iff entry.0 asked)

-- A missing key is equal to none.
abbrev pub is_key : String → Option String → Bool
is_key key none = false
is_key key (some k) = k == key

pub is_key-eq-true_iff : (key : String) (o : Option String) → (is_key key o ≡ true) ↔ (o ≡ some key)
is_key-eq-true_iff key none = (λ h. cc, λ h. cc)
is_key-eq-true_iff key (some k) =
    (λ h. ap some ((eq_iff k key).0 h), λ h. (eq_iff k key).1 (ground arith))

-- The key that the settings give a role
abbrev pub key_of : Settings → Role → Option String
key_of settings anonymous = none
key_of settings viewer = settings.viewer_api_key
key_of settings analyst = settings.analyst_api_key
key_of settings admin = settings.admin_api_key
key_of settings super_admin = settings.super_admin_api_key

module _ (settings : Settings) (key : String) (full : non_empty key ≡ true) where
  lookup-with_key :
      (o : Option String) (role : Role) (keys : List (String × Role))
      → lookup key (with_key o role keys) ≡ (if is_key key o then some role else lookup key keys)
  unfolding with_key
  lookup-with_key none role keys = refl
  lookup-with_key (some k) role keys = elim (Bool-cases (non_empty k)) [
    | inl given ↦ rw (with_key, given) (lookup-set_item k key role keys)
    | inr empty ↦
        let other : (k == key) ≡ false = elim (Bool-cases (k == key)) [
          | inl same ↦ let given : non_empty k ≡ true = rw ((eq_iff k key).0 same) full in cc
          | inr differ ↦ differ
        ] in
        rw (with_key, empty, other) refl
  ]

  best : Option Role
  best =
      if is_key key settings.super_admin_api_key
      then some super_admin
      else if is_key key settings.admin_api_key
      then some admin
      else if is_key key settings.analyst_api_key
      then some analyst
      else if is_key key settings.viewer_api_key
      then some viewer
      else none

  lookup-best : lookup key (configured_key_map settings) ≡ best
  unfolding configured_key_map best lookup
  lookup-best =
      let viewers = with_key settings.viewer_api_key viewer [] in
      let analysts = with_key settings.analyst_api_key analyst viewers in
      let admins = with_key settings.admin_api_key admin analysts in
      rw
        (
          lookup-with_key settings.super_admin_api_key super_admin admins,
          lookup-with_key settings.admin_api_key admin analysts,
          lookup-with_key settings.analyst_api_key analyst viewers,
          lookup-with_key settings.viewer_api_key viewer [],
        )
        refl

  opens : Option Role → Role → Bool
  opens none required = false
  opens (some held) required = leb (role_rank required) (role_rank held)

  best-In : (held : Role) → best ≡ some held → key_of settings held ≡ some key
  unfolding best
  best-In anonymous is = let impossible : ⊥ = ground arith in absurd impossible
  best-In viewer is = (is_key-eq-true_iff key settings.viewer_api_key).0 (ground arith)
  best-In analyst is = (is_key-eq-true_iff key settings.analyst_api_key).0 (ground arith)
  best-In admin is = (is_key-eq-true_iff key settings.admin_api_key).0 (ground arith)
  best-In super_admin is = (is_key-eq-true_iff key settings.super_admin_api_key).0 (ground arith)

  best-highest :
      (required held : Role)
      → key_of settings held ≡ some key
      → role_rank required ≤ role_rank held
      → opens best required ≡ true
  unfolding best opens
  best-highest required anonymous is low = cc
  best-highest required viewer is low =
      let mine = (is_key-eq-true_iff key settings.viewer_api_key).1 is in ground arith
  best-highest required analyst is low =
      let mine = (is_key-eq-true_iff key settings.analyst_api_key).1 is in ground arith
  best-highest required admin is low =
      let mine = (is_key-eq-true_iff key settings.admin_api_key).1 is in ground arith
  best-highest required super_admin is low =
      let mine = (is_key-eq-true_iff key settings.super_admin_api_key).1 is in ground arith

  authenticate-best :
      settings.auth_required ≡ true
      → (required : Role)
      → ((authenticate_api_key settings (some key)).authenticated
          && has_role (authenticate_api_key settings (some key)) required)
        ≡ opens best required
  unfolding authenticate_api_key opens
  authenticate-best needed required = elim (Option-cases best) [
    | inl unknown ↦ rw (unknown, authenticate_api_key, needed, full, lookup-best, unknown) refl
    | inr (held, is) ↦ rw (is, authenticate_api_key, needed, full, lookup-best, is) refl
  ]

-- Where authentication is required: a principal with a key is authenticated and has a role exactly if the key is
-- not empty and is the configured key of a role that ranks at least as high.
pub authenticate-opens_iff :
    (settings : Settings)
    → settings.auth_required ≡ true
    → (key : String) (required : Role)
    → ((authenticate_api_key settings (some key)).authenticated
          && has_role (authenticate_api_key settings (some key)) required
        ≡ true)
      ↔ ((non_empty key ≡ true)
          × (held : Role) × (key_of settings held ≡ some key)
          × role_rank required ≤ role_rank held)
unfolding authenticate_api_key opens
authenticate-opens_iff settings needed key required = elim (Bool-cases (non_empty key)) [
  | inr empty ↦ (
    λ h. let h' : false ≡ true = rw (authenticate_api_key, needed, empty) at h in cc,
    λ w. let clash : false ≡ true = sym empty ∙ w.0 in cc,
  )
  | inl full ↦
      let answer = authenticate-best settings key full needed required in
      (
        λ h. elim (Option-cases (best settings key full)) [
          | inl unknown ↦ let h' : false ≡ true = rw unknown at (sym answer ∙ h) in cc
          | inr (held, is) ↦
              let low : leb (role_rank required) (role_rank held) ≡ true =
                rw is at (sym answer ∙ h) in
              (full, held, best-In settings key full held is, ground arith)
        ],
        λ (_, held, is, low). answer ∙ best-highest settings key full required held is low,
      )
]
