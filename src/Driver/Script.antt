-- ===== src/Driver/Script.antt =====
-- Scripts: what an operation is to do, item by item, and the composition of operations that run them.
use textreaderrpi.Common.{
  ℕ, zero, suc, ◌+◌, ◌<◌, arith, ◌≡◌, ◌∙◌, refl, sym, ap, List, [], ◌∷◌, ◌++◌, some, append-nil,
  append_assoc,
}
use textreaderrpi.Machine.{M, Trace, pure, emit, after, after-nil, ◌>>=◌, ◌>>◌}
use textreaderrpi.Driver.Loops.{traces_up, traces_down}
use mathlib.Core.Path.{subst}

-- `Does item t`: the actions `t` carry out the item.
module _ {Item : Type 0} (Does : Item → Trace → Type 0) where
  -- The trace carries out the items one after the other, and has no other action.
  abbrev pub Plays : List Item → Trace → Type 0
  Plays [] t = t ≡ []
  Plays (item ∷ items) t =
      (first : Trace) × (rest : Trace) × Does item first × (t ≡ first ++ rest) × Plays items rest

  pub Plays-append :
      (is js : List Item) (t u : Trace) → Plays is t → Plays js u → Plays (is ++ js) (t ++ u)
  Plays-append [] js t u p q = rw p q
  Plays-append (i ∷ is) js t u p q = (
    p.0,
    p.1 ++ u,
    p.2,
    ap (λ l. l ++ u) p.3 ∙ append_assoc p.0 p.1 u,
    Plays-append is js p.1 u p.4 q,
  )

  -- What an operation does: it succeeds, and its actions are those of the script.
  abbrev pub Runs : {A : Type 0} → M A → List Item → Type 0
  Runs {A} m items = (a : A) × (t : Trace) × (m ≡ some (a, t)) × Plays items t

  pub then-Runs :
      {A B : Type 0} (m : M A) (k : A → M B) (is js : List Item)
      → Runs m is
      → ((a : A) → Runs (k a) js)
      → Runs (m >>= k) (is ++ js)
  then-Runs m k is js p q =
      let rest = q p.0 in
      (rest.0, p.1 ++ rest.1, rw (p.2, rest.2) refl, Plays-append is js p.1 rest.1 p.3 rest.3)

  pub done-Runs : {A : Type 0} (a : A) → Runs (pure a) []
  done-Runs a = (a, [], refl, refl)

  pub one-Runs :
      {A : Type 0} (m : M A) (a : A) (t : Trace) (item : Item)
      → m ≡ some (a, t)
      → Does item t
      → Runs m (item ∷ [])
  one-Runs m a t item e d = (a, t, e, (t, [], d, sym (append-nil t), refl))

  pub after-Runs :
      {A : Type 0} (m : M A) (items : List Item) → Runs m items → Runs (after [] m) items
  after-Runs m items = subst (λ n. Runs n items) (sym (after-nil m))

  pub traces_up-Plays :
      (n k : ℕ) (items : ℕ → List Item) (f : ℕ → Trace)
      → ((i : ℕ) → i < k + n → Plays (items i) (f i))
      → Plays (traces_up n k items) (traces_up n k f)
  unfolding traces_up
  traces_up-Plays zero k items f p = refl
  traces_up-Plays (suc n) k items f p =
      Plays-append (items k) (traces_up n (suc k) items) (f k) (traces_up n (suc k) f)
        (p k (omega arith)) (traces_up-Plays n (suc k) items f λ i lt. p i (omega arith))

  pub traces_down-Plays :
      (n : ℕ) (items : ℕ → List Item) (f : ℕ → Trace)
      → ((i : ℕ) → i < n → Plays (items i) (f i))
      → Plays (traces_down n items) (traces_down n f)
  unfolding traces_down
  traces_down-Plays zero items f p = refl
  traces_down-Plays (suc n) items f p =
      Plays-append (items n) (traces_down n items) (f n) (traces_down n f) (p n (omega arith))
        (traces_down-Plays n items f λ i lt. p i (omega arith))

  pub emit-Runs :
      {A : Type 0} (t : Trace) (a : A) (items : List Item)
      → Plays items t
      → Runs (emit t >> pure a) items
  emit-Runs t a items p = (a, t ++ [], refl, subst (Plays items) (sym (append-nil t)) p)
