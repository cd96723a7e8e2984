-- ===== src/Openmp/Returns/Pools.antt =====
-- Taking objects from the pools and giving them back.
use otf_cpt.Common.{ℕ, ◌≡◌, ◌≤◌, ◌<◌, refl, sym, subst, arith, All, List, [], ◌∷◌}
use otf_cpt.Clock.Metric.{Metric}
use otf_cpt.Openmp.Pool.{Pools, get_data, delete}
use otf_cpt.Openmp.Pool.Filled.{IsFilled, get_data-Hands, delete-IsFilled, created-delete}
use otf_cpt.Openmp.Objects.{
  Sizes, Kind, team, group, task, depend, pools_in, with_pools, set_pools, new_object, give_back,
}
use otf_cpt.Tool.World.{World, Objects}
use otf_cpt.Tool.Action.{Act, ◌>>=◌}
use otf_cpt.Openmp.Returns.Valid.{Extent, Links, IsTask, AreLinked}
use otf_cpt.Openmp.Returns.Ran.{Ran, Ran-some, Ran-bind, Ran-deref}
use otf_cpt.Openmp.Returns.Good.{Good, objects-Good}

-- More objects may exist than before.
pub record IsWithin (y z : Extent) : Type 0 where
  pub tasks : y.tasks ≤ z.tasks
  pub groups : y.groups ≤ z.groups
  pub depends : y.depends ≤ z.depends

All-lt_mono : {a b : ℕ} (l : List (ℕ × ℕ)) → a ≤ b → All (λ e. e.1 < a) l → All (λ e. e.1 < b) l
All-lt_mono [] h all = tt
All-lt_mono (e ∷ l) h all = (omega arith, All-lt_mono l h all.1)

IsTask-mono : {y z : Extent} (i : ℕ) (l : Links) → IsWithin y z → IsTask y i l → IsTask z i l
IsTask-mono i l h v = record {
  parent = λ p e. omega (arith, v.parent p e);
  group = λ g e. omega (arith, v.group g e);
  map = All-lt_mono l.map h.depends v.map;
}

with_pools-AreLinked :
    (k : Kind) (ps : Pools) (o : Objects)
    → IsFilled ps
    → (pools_in k o).created ≤ ps.created
    → AreLinked o
    → AreLinked (with_pools k ps o)
with_pools-AreLinked team ps o f le l = record {
  task_pool = l.task_pool;
  team_pool = f;
  group_pool = l.group_pool;
  depend_pool = l.depend_pool;
  tasks = λ i. IsTask-mono i _ (omega arith) (l.tasks i);
  groups = l.groups;
}
with_pools-AreLinked group ps o f le l = record {
  task_pool = l.task_pool;
  team_pool = l.team_pool;
  group_pool = f;
  depend_pool = l.depend_pool;
  tasks = λ i. IsTask-mono i _ (omega arith) (l.tasks i);
  groups = λ g p e. omega (arith, l.groups g p e);
}
with_pools-AreLinked task ps o f le l = record {
  task_pool = f;
  team_pool = l.team_pool;
  group_pool = l.group_pool;
  depend_pool = l.depend_pool;
  tasks = λ i. IsTask-mono i _ (omega arith) (l.tasks i);
  groups = l.groups;
}
with_pools-AreLinked depend ps o f le l = record {
  task_pool = l.task_pool;
  team_pool = l.team_pool;
  group_pool = l.group_pool;
  depend_pool = f;
  tasks = λ i. IsTask-mono i _ (omega arith) (l.tasks i);
  groups = l.groups;
}

pools_in-IsFilled : (k : Kind) (o : Objects) → AreLinked o → IsFilled (pools_in k o)
pools_in-IsFilled team o l = l.team_pool
pools_in-IsFilled group o l = l.group_pool
pools_in-IsFilled task o l = l.task_pool
pools_in-IsFilled depend o l = l.depend_pool

module _ {M : Type 0} ⦃metric : Metric M⦄ where
  -- An object was taken, and only the pools of its kind have changed.
  pub record Made (k : Kind) (t : ℕ) (w : World M) (x : ℕ) (w' : World M) : Type 0 where
    pub pool : Pools
    pub same : w' ≡ set_pools k pool w
    pub exists : x < pool.created
    pub grows : (pools_in k w.objects).created ≤ pool.created
    pub good : Good t w'

  pub new_object-Made :
      {t : ℕ} (sizes : Sizes) (k : Kind) (w : World M)
      → Good t w
      → Ran (Made k t w) (new_object sizes k t w)
  unfolding new_object
  new_object-Made {t} sizes k w g =
      let (c, e) = g.begun.counters in
      let pools = pools_in k w.objects in
      let h =
        get_data-Hands sizes.page (sizes.elem k) t pools
          (pools_in-IsFilled k w.objects g.valid.linked) in
      Ran-deref _ (w.counts t) c _ w e (
        Ran-deref _ (get_data sizes.page (sizes.elem k) t pools) (h.object, h.after) _ w h.returned
          (Ran-some _ h.object _ (record {
            pool = h.after;
            same = refl;
            exists = h.exists;
            grows = h.grows;
            good =
                objects-Good (with_pools k h.after w.objects)
                  (with_pools-AreLinked k h.after w.objects h.filled h.grows g.valid.linked) g;
          })))

  -- A block that begins by taking an object.
  pub new_first :
      {A : Type 0} {t : ℕ} (sizes : Sizes) (k : Kind) (Q : A → World M → Type 0) (f : ℕ → Act M A)
      (w : World M)
      → Good t w
      → ((x : ℕ) (ps : Pools)
          → x < ps.created
          → (pools_in k w.objects).created ≤ ps.created
          → Good t (set_pools k ps w)
          → Ran Q (f x (set_pools k ps w)))
      → Ran Q ((new_object sizes k t >>= f) w)
  new_first {t = t} sizes k Q f w g rest =
      Ran-bind (Made k t w) Q (new_object sizes k t) f w (new_object-Made sizes k w g) λ x w' m.
        subst (λ v. Ran Q (f x v)) (sym m.same)
          (rest x m.pool m.exists m.grows (subst (Good t) m.same m.good))

  -- Only the pools of one kind have changed, and no object was made.
  pub record Returned (k : Kind) (t : ℕ) (w w' : World M) : Type 0 where
    pub pool : Pools
    pub same : w' ≡ set_pools k pool w
    pub created : pool.created ≡ (pools_in k w.objects).created
    pub good : Good t w'

  pub give_back-Returned :
      {t : ℕ} (k : Kind) (x : ℕ) (w : World M)
      → x < (pools_in k w.objects).created
      → Good t w
      → Ran (λ u w'. Returned k t w w') (give_back k t x w)
  unfolding give_back
  give_back-Returned {t} k x w h g =
      let (c, e) = g.begun.counters in
      let ps = delete t x (pools_in k w.objects) in
      let same = created-delete t x (pools_in k w.objects) in
      Ran-deref _ (w.counts t) c _ w e (
        Ran-some _ tt _ (record {
          pool = ps;
          same = refl;
          created = same;
          good =
              objects-Good (with_pools k ps w.objects)
                (with_pools-AreLinked k ps w.objects
                  (delete-IsFilled t x _ h (pools_in-IsFilled k w.objects g.valid.linked))
                  (omega (arith, same)) g.valid.linked)
                g;
        }))

  -- A block that begins by giving an object back.
  pub give_first :
      {A : Type 0} {t : ℕ} (k : Kind) (x : ℕ) (Q : A → World M → Type 0) (f : Unit {0} → Act M A)
      (w : World M)
      → x < (pools_in k w.objects).created
      → Good t w
      → ((ps : Pools)
          → ps.created ≡ (pools_in k w.objects).created
          → Good t (set_pools k ps w)
          → Ran Q (f tt (set_pools k ps w)))
      → Ran Q ((give_back k t x >>= f) w)
  give_first {t = t} k x Q f w h g rest =
      Ran-bind _ Q (give_back k t x) f w (give_back-Returned k x w h g) λ u w' r.
        subst (λ v. Ran Q (f tt v)) (sym r.same)
          (rest r.pool r.created (subst (Good t) r.same r.good))
