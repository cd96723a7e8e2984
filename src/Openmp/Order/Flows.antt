-- ===== src/Openmp/Order/Flows.antt =====
-- Blocks of releases and acquisitions, with rules for the first and the later part of a block.
use otf_cpt.Common.{ℕ, ◌≡◌, true}
use otf_cpt.Common.Int.{ℤ}
use otf_cpt.Clock.State.{ClockType}
use otf_cpt.Clock.Metric.{Metric}
use otf_cpt.Clock.Activity.{Part}
use otf_cpt.Clock.Barrier.{IsShared}
use otf_cpt.Openmp.Order.{
  Covers, Ready, Has, Moves, Moves-refl, Moves-trans, release-Moves, acquire-Moves,
}
use otf_cpt.Openmp.Returns.Ran.{Ran, Ran-some, Ran-imp, Ran-bind}
use otf_cpt.Tool.World.{World, SyncRef}
use otf_cpt.Tool.Action.{Act, ◌>>◌, done, release, acquire}

module _ {M : Type 0} ⦃metric : Metric M⦄ (p : Part) (i : ClockType) (shared : IsShared p i)
    (b : ℤ) where
  -- Actions of a thread in an activity, while the tool runs.
  abbrev pub Flows : ℕ → Act M (Unit {0}) → Type 0
  Flows t m =
      (w : World M)
      → w.running ≡ true
      → Ready p i shared b t w
      → Ran (λ u w'. Moves p i shared b w w') (m w)

  abbrev pub Leaves : ℕ → SyncRef → Act M (Unit {0}) → Type 0
  Leaves t r m =
      (w : World M)
      → w.running ≡ true
      → Ready p i shared b t w
      → Has p i shared b t w
      → Ran (λ u w'. Moves p i shared b w w' × Covers p i shared b (w'.syncs r)) (m w)

  abbrev pub Gets : ℕ → SyncRef → Act M (Unit {0}) → Type 0
  Gets t r m =
      (w : World M)
      → w.running ≡ true
      → Ready p i shared b t w
      → Covers p i shared b (w.syncs r)
      → Ran (λ u w'. Moves p i shared b w w' × Has p i shared b t w') (m w)

  pub release-Flows : (t : ℕ) (r : SyncRef) → Flows t (release t r)
  release-Flows t r w on h = Ran-imp _ _ (λ u w' m. m.0) (release-Moves p i shared b t r w on h)

  pub release-Leaves : (t : ℕ) (r : SyncRef) → Leaves t r (release t r)
  release-Leaves t r w on h q =
      Ran-imp _ _ (λ u w' m. (m.0, m.1 q)) (release-Moves p i shared b t r w on h)

  pub acquire-Flows : (t : ℕ) (r : SyncRef) → Flows t (acquire t r)
  acquire-Flows t r w on h = Ran-imp _ _ (λ u w' m. m.0) (acquire-Moves p i shared b t r w on h)

  pub acquire-Gets : (t : ℕ) (r : SyncRef) → Gets t r (acquire t r)
  acquire-Gets t r w on h c =
      Ran-imp _ _ (λ u w' m. (m.0, m.1 c)) (acquire-Moves p i shared b t r w on h)

  pub done-Flows : (t : ℕ) → Flows t done
  done-Flows t w on h = Ran-some _ tt w (Moves-refl p i shared b on)

  pub Flows-bind : {t : ℕ} (m n : Act M (Unit {0})) → Flows t m → Flows t n → Flows t (m >> n)
  Flows-bind {t} m n f g w on h =
      Ran-bind _ _ m (λ u. n) w (f w on h)
        λ u w₁ k.
          Ran-imp _ _ (λ u w₂ l. Moves-trans p i shared b k l) (g w₁ k.running (k.ready t h))

  pub Leaves-first :
      {t : ℕ} {r : SyncRef} (m n : Act M (Unit {0}))
      → Leaves t r m
      → Flows t n
      → Leaves t r (m >> n)
  Leaves-first {t} {r} m n f g w on h q =
      Ran-bind _ _ m (λ u. n) w (f w on h q)
        λ u w₁ (k, c).
          Ran-imp _ _ (λ u w₂ l. (Moves-trans p i shared b k l, l.covers r c))
            (g w₁ k.running (k.ready t h))

  pub Leaves-later :
      {t : ℕ} {r : SyncRef} (m n : Act M (Unit {0}))
      → Flows t m
      → Leaves t r n
      → Leaves t r (m >> n)
  Leaves-later {t} {r} m n f g w on h q =
      Ran-bind _ _ m (λ u. n) w (f w on h)
        λ u w₁ k.
          Ran-imp _ _ (λ u w₂ l. (Moves-trans p i shared b k l.0, l.1))
            (g w₁ k.running (k.ready t h) (k.has t q))

  pub Gets-first :
      {t : ℕ} {r : SyncRef} (m n : Act M (Unit {0})) → Gets t r m → Flows t n → Gets t r (m >> n)
  Gets-first {t} {r} m n f g w on h c =
      Ran-bind _ _ m (λ u. n) w (f w on h c)
        λ u w₁ (k, q).
          Ran-imp _ _ (λ u w₂ l. (Moves-trans p i shared b k l, l.has t q))
            (g w₁ k.running (k.ready t h))

  pub Gets-later :
      {t : ℕ} {r : SyncRef} (m n : Act M (Unit {0})) → Flows t m → Gets t r n → Gets t r (m >> n)
  Gets-later {t} {r} m n f g w on h c =
      Ran-bind _ _ m (λ u. n) w (f w on h)
        λ u w₁ k.
          Ran-imp _ _ (λ u w₂ l. (Moves-trans p i shared b k l.0, l.1))
            (g w₁ k.running (k.ready t h) (k.covers r c))
