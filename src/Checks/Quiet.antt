-- ===== src/Checks/Quiet.antt =====
-- What the checks report of a reading that has brought nothing new.
use fanuc_driver.CString.Laws.{strcmp_same, strncmp_same}
use fanuc_driver.CString.{Bytes, strcmp_ne, strncmp_ne}
use fanuc_driver.Checks.Counters.{report_part_count}
use fanuc_driver.Checks.State.{Driver}
use fanuc_driver.Prelude.{
  ℕ, ◌≡◌, refl, true, false, some, zero, suc, String, ◌∙◌, inl, inr, Bool, List, [], ◌∷◌, arith,
  Option-cases, pos_part, modify, OnReturn, in_bounds-OnReturn-eq, ==ℤ_refl,
}
use fanuc_driver.Types.{
  MachinePartCount, MachineMessage, MachineStatus, MachineToolInfo, MachineBlock, MachineDynamic,
}
use fanuc_driver.Checks.Block.{report_block}
use fanuc_driver.Checks.Status.{report_status, report_message}
use fanuc_driver.Checks.Tool.{report_tool_info}
use fanuc_driver.Checks.Dynamic.{
  any_ne, add_array, array_updates, number_updates, report_dynamic_numbers, report_dynamic,
}
use fanuc_driver.Checks.Sync.Frames.{steps}
use fanuc_driver.Env.{Floats}
use fanuc_driver.Report.{Object}

same_text : (s : Bytes) → strcmp_ne s s ≡ false
same_text s = strcmp_same s s refl

same_prefix : (s : Bytes) (n : ℕ) → strncmp_ne s s n ≡ false
same_prefix s n = strncmp_same s s n refl

ruleset same_laws = (==ℤ_refl, same_text, same_prefix)

module _ {W D : Type 0} where
  part_quiet :
      (l : MachinePartCount) (n : ℕ) (d : Driver W D)
      → (report_part_count
          (record l { execution_duration = n })
          (record d { last_part_count = some l })).updates
        ≡ d.updates
  unfolding report_part_count
  part_quiet l n d = simp same_laws

  tool_quiet :
      (l : MachineToolInfo) (n : ℕ) (d : Driver W D)
      → (report_tool_info
          (record l { execution_duration = n })
          (record d { last_tool_info = some l })).updates
        ≡ d.updates
  unfolding report_tool_info
  tool_quiet l n d = simp same_laws

  block_quiet :
      (l : MachineBlock) (n : ℕ) (d : Driver W D)
      → (report_block
          (record l { execution_duration = n })
          (record d { last_block = some l })).updates
        ≡ d.updates
  unfolding report_block
  block_quiet l n d = simp same_laws

  message_quiet :
      (l : MachineMessage) (n : ℕ) (d : Driver W D)
      → (report_message
          (record l { execution_duration = n })
          (record d { last_message = some l })).updates
        ≡ d.updates
  unfolding report_message
  message_quiet l n d = simp same_laws

  status_quiet :
      (l : MachineStatus) (n : ℕ) (d : Driver W D)
      → (report_status
          (record l { execution_duration = n })
          (record d { last_status = some l })).updates
        ≡ d.updates
  unfolding report_status
  status_quiet l n d = simp same_laws

-- None of the first `n` elements differs from itself.
abbrev pub SelfEqual : {D : Type 0} → (D → D → Bool) → ℕ → List D → Type 0
SelfEqual ne zero xs = Unit
SelfEqual ne (suc n) [] = Unit
SelfEqual ne (suc n) (x ∷ xs) = (ne x x ≡ false) × SelfEqual ne n xs

-- So it is with the elements of the four arrays that the check compares.
abbrev pub EqualsItself : {D : Type 0} → Floats D → MachineDynamic D → Type 0
EqualsItself floats l =
    let n = pos_part l.dim in
    SelfEqual floats.ne n l.absolute
    × SelfEqual floats.ne n l.relative
    × SelfEqual floats.ne n l.actual
    × SelfEqual floats.ne n l.load

-- An array does not differ from itself.
any_ne_self :
    {D : Type 0} (ne : D → D → Bool) (n : ℕ) (xs : List D) (b : Bool)
    → SelfEqual ne n xs
    → any_ne ne n xs xs ≡ some b
    → b ≡ false
unfolding any_ne
any_ne_self ne zero xs b irr e = cc
any_ne_self ne (suc n) [] b irr e = cc
any_ne_self ne (suc n) (x ∷ xs) b irr e = elim (Option-cases (any_ne ne n xs xs)) [
  | inl z ↦ ground arith
  | inr (c, z) ↦ let rest : c ≡ false = any_ne_self ne n xs c irr.1 z in ground (arith, irr.0)
]

module _ {D : Type 0} (floats : Floats D) where
  add_array-same :
      (k : String) (array : MachineDynamic D → List D) (n : ℕ) (l : MachineDynamic D)
      (o o' : Object D) (b : Bool)
      → SelfEqual floats.ne n (array l)
      → any_ne floats.ne n (array l) (array l) ≡ some b
      → add_array b k n (array l) o ≡ some o'
      → o' ≡ o
  unfolding add_array
  add_array-same k array n l o o' true irr c e =
      absurd (ground (arith, any_ne_self floats.ne n (array l) true irr c))
  add_array-same k array n l o o' false irr c e = cc

  arrays_quiet :
      (l : MachineDynamic D) (m : ℕ) (o o' : Object D)
      → EqualsItself floats l
      → array_updates floats (some l) (record l { execution_duration = m }) o ≡ some o'
      → o' ≡ o
  unfolding array_updates
  arrays_quiet l m o o' (i1, i2, i3, i4) e =
      let n = pos_part l.dim in
      let (abs, c1, e1) = steps (any_ne floats.ne n l.absolute l.absolute) _ o' e in
      let (rel, c2, e2) = steps (any_ne floats.ne n l.relative l.relative) _ o' e1 in
      let (act, c3, e3) = steps (any_ne floats.ne n l.actual l.actual) _ o' e2 in
      let (load, c4, e4) = steps (any_ne floats.ne n l.load l.load) _ o' e3 in
      let (o1, a1, e5) = steps (add_array abs "absolute" n l.absolute o) _ o' e4 in
      let (o2, a2, e6) = steps (add_array rel "relative" n l.relative o1) _ o' e5 in
      let (o3, a3, a4) = steps (add_array act "actual" n l.actual o2) _ o' e6 in
      add_array-same "load" (λ l. l.load) n l o3 o' load i4 c4 a4
      ∙ add_array-same "actual" (λ l. l.actual) n l o2 o3 act i3 c3 a3
      ∙ add_array-same "relative" (λ l. l.relative) n l o1 o2 rel i2 c2 a2
      ∙ add_array-same "absolute" (λ l. l.absolute) n l o o1 abs i1 c1 a1

numbers_quiet :
    {D : Type 0} (l : MachineDynamic D) (n : ℕ) (o : Object D)
    → number_updates (some l) (record l { execution_duration = n }) o ≡ o
unfolding number_updates
numbers_quiet l n o = simp same_laws

module _ {W D : Type 0} where
  dynamic_quiet :
      (floats : Floats D) (l : MachineDynamic D) (n : ℕ) (d : Driver W D)
      → EqualsItself floats l
      → OnReturn
          (λ _ d'. d'.updates ≡ d.updates)
          (report_dynamic floats
            (record l { execution_duration = n })
            (record d { last_dynamic = some l }))
  unfolding report_dynamic report_dynamic_numbers
  dynamic_quiet floats l n d irr =
      let v = record l { execution_duration = n } in
      let d1 = record d { last_dynamic = some l } in
      in_bounds-OnReturn-eq (λ _ d'. d'.updates ≡ d.updates)
        (array_updates floats (some l) v d.updates) (λ o. modify (report_dynamic_numbers v o)) d1
        (λ o e. numbers_quiet l n o ∙ arrays_quiet floats l n d.updates o irr e)

  -- Where none of the doubles of the last dynamic values that are compared differs from itself by `!=`,
  -- so that none is a NaN: the six checks that compare their reading with the last one add nothing
  -- to `updates` where the reading has brought the same values again, in whatever time.
  pub unchanged_quiet :
      (floats : Floats D) (part : MachinePartCount) (status : MachineStatus)
      (tool : MachineToolInfo) (dynamic : MachineDynamic D) (message : MachineMessage)
      (block : MachineBlock) (n : ℕ) (d : Driver W D)
      → EqualsItself floats dynamic
      → let d1 = record d {
        last_part_count = some part;
        last_status = some status;
        last_tool_info = some tool;
        last_dynamic = some dynamic;
        last_message = some message;
        last_block = some block;
      } in
        ((report_part_count (record part { execution_duration = n }) d1).updates ≡ d.updates)
        × ((report_status (record status { execution_duration = n }) d1).updates ≡ d.updates)
        × ((report_tool_info (record tool { execution_duration = n }) d1).updates ≡ d.updates)
        × OnReturn
            (λ _ d'. d'.updates ≡ d.updates)
            (report_dynamic floats (record dynamic { execution_duration = n }) d1)
        × ((report_message (record message { execution_duration = n }) d1).updates ≡ d.updates)
        × ((report_block (record block { execution_duration = n }) d1).updates ≡ d.updates)
  unchanged_quiet floats part status tool dynamic message block n d irr =
      let d1 = record d {
        last_part_count = some part;
        last_status = some status;
        last_tool_info = some tool;
        last_dynamic = some dynamic;
        last_message = some message;
        last_block = some block;
      } in
      (
        part_quiet part n d1,
        status_quiet status n d1,
        tool_quiet tool n d1,
        dynamic_quiet floats dynamic n d1 irr,
        message_quiet message n d1,
        block_quiet block n d1,
      )
