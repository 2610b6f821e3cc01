-- ===== src/Env/Reader/Laws.antt =====
-- The steps that the readings share, as rules of total correctness.
use fanuc_driver.Prelude.{
  ◌>>=◌, ℕ, ◌≡◌, refl, Ends, Ends-bind, Bool, true, false, if◌then◌else◌, Exec, pure, fail, ◌>>◌,
  OnReturn,
}
use fanuc_driver.Focas.{Call, EwCode, ew_ok, ew_busy, ew_data, ew_buffer, ew_mode, ew_other}
use fanuc_driver.Env.Reader.{Reader, Get, ok_or_fail, read}

module _ {W D A : Type 0} (P : A → Reader W D → Type 0) where
  ok_or_fail-Ends :
      (ret : EwCode) (out : A) (s : Reader W D)
      → (ret ≡ ew_ok → P out s)
      → Ends P (ok_or_fail (ret, out) s)
  ok_or_fail-Ends ew_ok out s h = h refl
  ok_or_fail-Ends ew_busy out s h = tt
  ok_or_fail-Ends ew_data out s h = tt
  ok_or_fail-Ends ew_buffer out s h = tt
  ok_or_fail-Ends ew_mode out s h = tt
  ok_or_fail-Ends (ew_other z) out s h = tt

  -- What holds of a successful reply holds after `read`.
  pub read-Ends :
      (f : ℕ → Call W A) (s : Reader W D)
      → (let (ret, out, w) = f s.libh s.world in ret ≡ ew_ok → P out (record s { world = w }))
      → Ends P (read f s)
  read-Ends f s h =
      let (ret, out, w) = f s.libh s.world in ok_or_fail-Ends ret out (record s { world = w }) h

-- Nothing need be known of a step's result to go on.
abbrev pub Any : {S A : Type 0} → A → S → Type 0
Any a s = Unit

module _ {W D A B : Type 0} (Q : B → Reader W D → Type 0) where
  pub read-bind-Ends :
      (f : ℕ → Call W A) (k : A → Get W D B) (s : Reader W D)
      → ((out : A) (s' : Reader W D) → Ends Q (k out s'))
      → Ends Q ((read f >>= k) s)
  read-bind-Ends f k s h =
      Ends-bind Any Q (read f) k s (read-Ends Any f s (λ _. tt)) (λ out s' _. h out s')

module _ {W D A B : Type 0} (Q : B → Reader W D → Type 0) where
  -- A reply that ends the function where it is none.
  pub reply-Ends :
      (ret : EwCode) (out : A) (k : A → Get W D B) (s : Reader W D)
      → (ret ≡ ew_ok → Ends Q (k out s))
      → Ends Q ((ok_or_fail (ret, out) >>= k) s)
  reply-Ends ew_ok out k s h = h refl
  reply-Ends ew_busy out k s h = tt
  reply-Ends ew_data out k s h = tt
  reply-Ends ew_buffer out k s h = tt
  reply-Ends ew_mode out k s h = tt
  reply-Ends (ew_other z) out k s h = tt

  -- The same, with the reply and the next world at hand.
  pub read-then-Ends :
      (f : ℕ → Call W A) (k : A → Get W D B) (s : Reader W D)
      → (let (ret, out, w) = f s.libh s.world in
          ret ≡ ew_ok → Ends Q (k out (record s { world = w })))
      → Ends Q ((read f >>= k) s)
  read-then-Ends f k s h =
      let (ret, out, w) = f s.libh s.world in reply-Ends ret out k (record s { world = w }) h

-- A step after a test that fails where it is false.
pub or_fail-Ends :
    {S B : Type 0} (Q : B → S → Type 0) (b : Bool) (k : Exec S B) (s : S)
    → Ends Q (k s)
    → Ends Q (((if b then pure tt else fail) >> k) s)
or_fail-Ends Q true k s h = h
or_fail-Ends Q false k s h = tt

module _ {W D : Type 0} where
  reply-OnReturn :
      {A B : Type 0} (Q : B → Reader W D → Type 0) (k : A → Get W D B) (ret : EwCode) (out : A)
      (s : Reader W D)
      → (ret ≡ ew_ok → OnReturn Q (k out s))
      → OnReturn Q ((ok_or_fail (ret, out) >>= k) s)
  reply-OnReturn Q k ew_ok out s h = h refl
  reply-OnReturn Q k ew_busy out s h = tt
  reply-OnReturn Q k ew_data out s h = tt
  reply-OnReturn Q k ew_buffer out s h = tt
  reply-OnReturn Q k ew_mode out s h = tt
  reply-OnReturn Q k (ew_other z) out s h = tt

  -- The same where only a return matters.
  pub read-OnReturn :
      {A B : Type 0} (Q : B → Reader W D → Type 0) (f : ℕ → Call W A) (k : A → Get W D B)
      (s : Reader W D)
      → ((s' : Reader W D) → (f s.libh s.world).0 ≡ ew_ok → OnReturn Q (k (f s.libh s.world).1 s'))
      → OnReturn Q ((read f >>= k) s)
  read-OnReturn Q f k s h =
      let (ret, out, w) = f s.libh s.world in
      reply-OnReturn Q k ret out (record s { world = w }) (h (record s { world = w }))
