-- ===== src/Utils/Singleton.antt =====
-- core/src/utils/singleton: `getInstance`, which makes the object at its first call. `make` is the
-- constructor of the derived class, which may throw; the static member is the field `instance_`.
use pipeline_tools.Prelude.{◌≡◌, refl, Option, none, some, List, [], ◌∷◌}
use pipeline_tools.Prelude.Outcome.{
  done, thrown, blocked, undefined, out_of_fuel, terminated, Returns, Returns-bind, Cmd, pure,
  ◌>>=◌,
}

pub record Static (Derived W : Type 0) : Type 0 where
  pub instance_ : Option Derived
  pub world : W

module _ {Args Derived W : Type 0} (make : Args → Cmd W Derived) where
  -- `instance = std::make_shared<Derived>(arguments...)`.
  unfoldable pub create : Args → Cmd (Static Derived W) Derived
  create arguments s = elim (make arguments s.world) [
    | done d w ↦ done d (record { instance_ = some d; world = w })
    | thrown e w ↦ thrown e (record s { world = w })
    | blocked ↦ blocked
    | undefined ↦ undefined
    | out_of_fuel ↦ out_of_fuel
    | terminated ↦ terminated
  ]

  unfoldable pub get_instance : Args → Cmd (Static Derived W) Derived
  unfolding create
  get_instance arguments s = elim s.instance_ [ none ↦ create arguments s | some d ↦ done d s ]

  -- A sequence of calls, with what each returns.
  unfoldable pub get_all : List Args → Cmd (Static Derived W) (List Derived)
  unfolding get_instance
  get_all [] s = done [] s
  get_all (a ∷ as') s = (do d ← get_instance a; ds ← get_all as'; pure (d ∷ ds)) s

  abbrev pub AllAre : Derived → List Derived → Type 0
  AllAre d [] = Unit {0}
  AllAre d (e ∷ es) = (e ≡ d) × AllAre d es

  again :
      (d : Derived) (as' : List Args) (w : W)
      → let s : Static Derived W = record { instance_ = some d; world = w } in
        Returns (λ ds t. AllAre d ds × (t ≡ s)) (get_all as' s)
  unfolding get_all
  again d [] w = (tt, refl)
  again d (a ∷ as') w =
      Returns-bind _ (get_all as' (record { instance_ = some d; world = w })) _ (again d as' w)
        (λ ds t h. ((refl, h.0), h.1))

  -- After a first call whose constructor returned, all further calls return the object that it made,
  -- whatever their arguments, and no constructor runs again.
  pub get_all-same :
      (a : Args) (as' : List Args) (s : Static Derived W) (d : Derived) (w : W)
      → s.instance_ ≡ none
      → make a s.world ≡ done d w
      → Returns
          (λ ds t. AllAre d ds × (t ≡ record { instance_ = some d; world = w }))
          (get_all (a ∷ as') s)
  unfolding get_all
  get_all-same a as' s d w e m =
      rw (e, get_instance, create, m)
        (Returns-bind _ (get_all as' (record { instance_ = some d; world = w })) _ (again d as' w)
          (λ ds t h. ((refl, h.0), h.1)))
