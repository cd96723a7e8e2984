-- ===== src/Openmp/Returns/Ran.antt =====
-- Results of actions: `Ran r Q` says that the run `r` returns, with a value and a state for which `Q`
-- holds, and the rules by which a do block is followed.
use otf_cpt.Common.{◌≡◌, Option, some, Bool, true, false, refl}
use otf_cpt.Tool.World.{World}
use otf_cpt.Tool.Action.{Act, ◌>>=◌, deref, when}

module _ {M : Type 0} where
  pub record Ran {A : Type 0} (Q : A → World M → Type 0) (r : Option (A × World M)) : Type 0 where
    pub value : A
    pub after : World M
    pub returned : r ≡ some (value, after)
    pub post : Q value after

  pub Ran-some :
      {A : Type 0} (Q : A → World M → Type 0) (a : A) (w : World M) → Q a w → Ran Q (some (a, w))
  Ran-some Q a w h = record { value = a; after = w; returned = refl; post = h }

  pub Ran-bind :
      {A B : Type 0} (P : A → World M → Type 0) (Q : B → World M → Type 0) (m : Act M A)
      (f : A → Act M B) (w : World M)
      → Ran P (m w)
      → ((a : A) (w' : World M) → P a w' → Ran Q (f a w'))
      → Ran Q ((m >>= f) w)
  Ran-bind P Q m f w r next =
      let s = next r.value r.after r.post in
      record {
        value = s.value;
        after = s.after;
        returned = rw (r.returned, ◌>>=◌) s.returned;
        post = s.post;
      }

  pub Ran-deref :
      {A B : Type 0} (Q : B → World M → Type 0) (o : Option A) (a : A) (f : A → Act M B)
      (w : World M)
      → o ≡ some a
      → Ran Q (f a w)
      → Ran Q ((deref o >>= f) w)
  Ran-deref Q o a f w e r = rw e r

  -- A condition that does not matter for what holds afterwards.
  pub Ran-when :
      (Q : Unit {0} → World M → Type 0) (b : Bool) (m : Act M (Unit {0})) (w : World M)
      → Q tt w
      → Ran Q (m w)
      → Ran Q (when b m w)
  Ran-when Q true m w h r = r
  Ran-when Q false m w h r = Ran-some Q tt w h

  pub Ran-imp :
      {A : Type 0} (P Q : A → World M → Type 0) {r : Option (A × World M)}
      → ((a : A) (w : World M) → P a w → Q a w)
      → Ran P r
      → Ran Q r
  Ran-imp P Q f r = record {
    value = r.value;
    after = r.after;
    returned = r.returned;
    post = f r.value r.after r.post;
  }
