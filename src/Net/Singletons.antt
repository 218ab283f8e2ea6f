-- ===== src/Net/Singletons.antt =====
-- `Singleton` and `SingletonLight` of net/singleton.h: the object that `instance` gives, before and after `Release`.
-- An object is its number; `fresh` is that of the next one that `new` makes.
use lobbysvr.Base.{
  ℕ, suc, ◌≡◌, refl, ap, ◌∙◌, Bool, true, false, List, [], ◌∷◌, Option, none, some, if◌then◌else◌,
}

-- The static members, with `deleted` for what has been destroyed.
pub record Instance : Type 0 where
  pub once : Bool
  pub object : Option ℕ
  pub fresh : ℕ
  pub deleted : List ℕ

abbrev pub unused : Instance
unused = record { once = false; object = none; fresh = 0; deleted = [] }

unfoldable pub made : Instance → Instance
made s = record s { object = some s.fresh; fresh = suc s.fresh }

-- `Singleton::instance`: `call_once` runs its function at the first call only.
unfoldable pub instance_once : Instance → Option ℕ × Instance
unfolding made
instance_once s =
    let new = made (record s { once = true }) in
    let after = if s.once then s else new in (after.object, after)

unfoldable pub release_from : Option ℕ → Instance → Instance
release_from none s = s
release_from (some object) s = record s { object = none; deleted = object ∷ s.deleted }

-- `Release` of both classes.
unfoldable pub release : Instance → Instance
unfolding release_from
release s = release_from s.object s

-- `SingletonLight::instance`.
unfoldable pub instance_from : Option ℕ → Instance → Option ℕ × Instance
unfolding made
instance_from none s = ((made s).object, made s)
instance_from (some object) s = (some object, s)

unfoldable pub instance_light : Instance → Option ℕ × Instance
unfolding instance_from
instance_light s = instance_from s.object s

-- Once `Singleton` has given an object and `Release` has destroyed it, `instance` gives the null pointer, for good;
-- `SingletonLight` gives a new object then.
pub instance_once-release :
    (s : Instance)
    → s.once ≡ true
    → ((instance_once (release s)).0 ≡ none) × ((instance_light (release s)).0 ≡ some s.fresh)
unfolding instance_once release instance_light release_from instance_from made
instance_once-release s e = (at_once s.object refl, at_light s.object refl)
  where
    at_once : (o : Option ℕ) → s.object ≡ o → (instance_once (release_from o s)).0 ≡ none
    at_once none h = ap (λ b. (if b then s else made (record s { once = true })).object) e ∙ h
    at_once (some object) h =
        let after = record s { object = none; deleted = object ∷ s.deleted } in
        ap (λ b. (if b then after else made (record after { once = true })).object) e

    at_light :
        (o : Option ℕ)
        → s.object ≡ o
        → (instance_from (release_from o s).object (release_from o s)).0 ≡ some s.fresh
    at_light none h = ap (λ p. (instance_from p s).0) h
    at_light (some object) h = refl
