-- ===== src/Process/Parts.antt =====
-- Rules for the parts of the two programs: a check, and what is written where it fails.
use fanuc_driver.Process.{Process, Notice, inside, noticed_if_failed, notice}
use fanuc_driver.Checks.State.{Driver, Check, lift}
use fanuc_driver.Prelude.{Outcome, returns, fails, hangs, faults, OnReturn}
use fanuc_driver.Process.Exits.{Exits}
use fanuc_driver.Env.Reader.{Reader, Get}

-- A reading by itself, where a property does not look at the reader's state.
pub lift-keeps :
    {W D A : Type 0} (Q : Driver W D → Type 0) (m : Get W D A) (d : Driver W D)
    → ((s : Reader W D) → Q (record d { reader = s }))
    → OnReturn (λ _. Q) (lift m d)
lift-keeps {W = W} {D = D} {A = A} Q m d h = go (m d.reader)
  where
    go : (r : Outcome A × Reader W D) → OnReturn (λ _. Q) (r.0, record d { reader = r.1 })
    go (returns a, s) = h s
    go (fails, s) = tt
    go (hangs, s) = tt
    go (faults, s) = tt

module _ {W D A : Type 0} (Q : Driver W D → Type 0) (R : Process W D → Type 0) where
  pub inside-OnReturn :
      (m : Check W D A) (p : Process W D)
      → OnReturn (λ _. Q) (m p.driver)
      → ((d : Driver W D) → Q d → R (record p { driver = d }))
      → OnReturn (λ _. R) (inside m p)
  inside-OnReturn m p h f = go (m p.driver) h
    where
      go :
          (r : Outcome A × Driver W D)
          → OnReturn (λ _. Q) r
          → OnReturn (λ _. R) (r.0, record p { driver = r.1 })
      go (returns a, d) h = f d h
      go (fails, d) h = tt
      go (hangs, d) h = tt
      go (faults, d) h = tt

-- A check by itself, where what holds after a failure does not look at the driver's state.
module _ {W D A : Type 0} (Q : Driver W D → Type 0) (R F : Process W D → Type 0) where
  pub inside-Exits :
      (m : Check W D A) (p : Process W D)
      → OnReturn (λ _. Q) (m p.driver)
      → ((d : Driver W D) → Q d → R (record p { driver = d }))
      → ((d : Driver W D) → F (record p { driver = d }))
      → Exits (λ _. R) F (inside m p)
  inside-Exits m p h f g = go (m p.driver) h
    where
      go :
          (r : Outcome A × Driver W D)
          → OnReturn (λ _. Q) r
          → Exits (λ _. R) F (r.0, record p { driver = r.1 })
      go (returns a, d) h = f d h
      go (fails, d) h = g d
      go (hangs, d) h = tt
      go (faults, d) h = tt

pub noticed-OnReturn :
    {W D A : Type 0} (P : A → Process W D → Type 0) (n : Notice) (r : Outcome A × Process W D)
    → OnReturn P r
    → OnReturn P (noticed_if_failed n r)
noticed-OnReturn P n (returns a, p) h = h
noticed-OnReturn P n (fails, p) h = tt
noticed-OnReturn P n (hangs, p) h = tt
noticed-OnReturn P n (faults, p) h = tt

module _ {W D : Type 0} where
  pub noticed-Exits :
      {A : Type 0} (R : A → Process W D → Type 0) (F : Process W D → Type 0) (n : Notice)
      (r : Outcome A × Process W D)
      → Exits R (λ q. F (notice n q)) r
      → Exits R F (noticed_if_failed n r)
  noticed-Exits R F n (returns a, p) h = h
  noticed-Exits R F n (fails, p) h = h
  noticed-Exits R F n (hangs, p) h = h
  noticed-Exits R F n (faults, p) h = h
