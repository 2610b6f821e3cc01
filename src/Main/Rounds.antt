-- ===== src/Main/Rounds.antt =====
-- Rules for the end of a round of main.c: what holds of its state whatever text is sent.
use fanuc_driver.Main.{publish, send, add_total}
use fanuc_driver.Process.{Outside, Process, world_of}
use fanuc_driver.Process.Exits.{Exits}
use fanuc_driver.CString.{Bytes, c_str}
use fanuc_driver.Prelude.{
  ℕ, ◌≡◌, Option, none, some, Exec, in_bounds, ◌>>=◌, OnReturn, in_bounds-OnReturn-eq, modify,
}

in_bounds-Exits :
    {S A B : Type 0} (Q : B → S → Type 0) (F : S → Type 0) (o : Option A) (k : A → Exec S B) (s : S)
    → ((a : A) → Exits Q F (k a s))
    → Exits Q F ((in_bounds o >>= k) s)
in_bounds-Exits Q F none k s h = tt
in_bounds-Exits Q F (some a) k s h = h a

module _ {W D : Type 0} (out : Outside W D) where
  -- The text of the round's two objects, the second with its total.
  abbrev pub round_text : ℕ → Process W D → Option Bytes
  round_text tt_us p =
      let q = add_total tt_us p in out.print_unformatted q.driver.updates q.driver.meta (world_of q)

  module _ (Q : Process W D → Type 0) where
    pub publish-OnReturn :
        (tt_us : ℕ) (p : Process W D)
        → ((text : Bytes)
            → round_text tt_us p ≡ some text
            → Q (send out tt_us (c_str text) (add_total tt_us p)))
        → OnReturn (λ _. Q) (publish out tt_us p)
    unfolding publish
    publish-OnReturn tt_us p h =
        in_bounds-OnReturn-eq (λ _. Q) (round_text tt_us p)
          (λ text. modify (send out tt_us (c_str text))) (add_total tt_us p) h

    pub publish-Exits :
        (F : Process W D → Type 0) (tt_us : ℕ) (p : Process W D)
        → ((text : Bytes) → Q (send out tt_us text (add_total tt_us p)))
        → Exits (λ _. Q) F (publish out tt_us p)
    unfolding publish
    publish-Exits F tt_us p h =
        in_bounds-Exits (λ _. Q) F (round_text tt_us p)
          (λ text. modify (send out tt_us (c_str text))) (add_total tt_us p)
          (λ text. h (c_str text))
