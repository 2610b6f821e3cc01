-- ===== src/Examples/Programs.antt =====
-- The theorems about programs and texts at concrete inputs.
use fanuc_driver.CString.{codes, zeroed, c_str}
use fanuc_driver.Examples.Bench.{bench_focas, bench_uninit, bench, bench_reader, header_text}
use fanuc_driver.Focas.{ew_other, ew_ok}
use fanuc_driver.Prelude.{
  ◌≡◌, refl, some, [], ◌∷◌, ◌++◌, arith, pos, negsuc, Ends, Returns, ℕ, replicate, ℤ, faults, inl,
  true,
}
use fanuc_driver.Readings.Contents.{get_machine_program_contents}
use fanuc_driver.Readings.Contents.Transfer.{
  Delivers, ended, pending, chunk, IsUpload, contents_delivered,
}
use fanuc_driver.Readings.Header.{get_machine_program_header}
use fanuc_driver.Readings.Header.Laws.{Ready, at_once, waits, IsHeader, header_delivered}
use fanuc_driver.Env.{Env}
use fanuc_driver.Readings.Texts.{get_machine_program_name, get_machine_message, get_machine_block}
use fanuc_driver.Readings.Texts.Block.{BlockOf, block_first_line}
use fanuc_driver.Readings.Texts.Names.{
  NameOf, name_read, path_read, program_name_read, message_fits, message_overflows,
}

bench_chunks-IsUpload : IsUpload (bench_focas.cnc_upload4 5 (pos 1280))
bench_chunks-IsUpload w w' ret up e = ground arith

-- The control asks to wait once and delivers "G0X" and "1M".
bench_delivery :
    Delivers (bench_focas.cnc_upload4 5 (pos 1280)) 4 0 (codes "G0X" ++ (codes "1M" ++ [])) 4
bench_delivery =
    pending (record { len = pos 1280; written = [] }) refl
      (chunk (record { len = pos 3; written = codes "G0X" }) refl
        (chunk (record { len = pos 2; written = codes "1M" }) refl
          (ended (ew_other (negsuc 1)) (record { len = pos 0; written = [] }) tt refl)))

contents_delivered_example :
    Ends
      (λ r _. (r.contents ≡ some (codes "G0X1M" ++ (0 ∷ []))) × (r.size ≡ pos 6))
      (get_machine_program_contents bench 9 bench_uninit.contents (zeroed 256) bench_reader)
contents_delivered_example =
    contents_delivered bench bench_uninit.contents (zeroed 256) bench_reader bench_chunks-IsUpload
      bench_delivery 9 (omega arith)

bench-Ready : Ready (bench_focas.cnc_upload3 5) 2 (pos 2047) 0 header_text 2
bench-Ready =
    waits (record { len = pos 2047; written = [] }) refl (omega arith) (at_once header_text refl)

header_delivered_example :
    Returns
      (λ r _. IsHeader (pos 2094) bench_uninit.program header_text true r)
      (get_machine_program_header bench 2 bench_uninit.program (pos 2094) bench_reader)
header_delivered_example =
    header_delivered bench bench_uninit.program (pos 2094) bench_reader refl refl bench-Ready
      (ground arith) (omega arith) refl 2 (omega arith)

program_name_read_example :
    Ends
      (λ r _. NameOf bench (name_read bench bench_reader).0 (path_read bench bench_reader) r)
      (get_machine_program_name bench bench_uninit.program_name bench_reader)
program_name_read_example =
    program_name_read bench bench_uninit.program_name bench_reader refl refl (λ w. omega arith)

block_first_line_example :
    Ends
      (λ r _. BlockOf bench_uninit.block (codes "G0X") r)
      (get_machine_block bench bench_uninit.block bench_reader)
block_first_line_example =
    block_first_line bench bench_uninit.block bench_reader refl
      (λ w. (refl, omega arith, ground arith, inl (omega arith)))

message_fits_example :
    Ends
      (λ r _. (c_str r.text ≡ []) × (r.number ≡ negsuc 0))
      (get_machine_message bench bench_uninit.message bench_reader)
unfolding c_str
message_fits_example = message_fits bench bench_uninit.message bench_reader refl (omega arith)

-- A control whose message has 256 characters.
abbrev loud : Env ℕ ℤ
loud = record bench {
  focas = record bench_focas {
    cnc_rdopmsg = λ h a b w. (ew_ok, record { datano = pos 1; message = replicate 256 b'A' }, w);
  };
}

message_overflows_example : (get_machine_message loud bench_uninit.message bench_reader).0 ≡ faults
unfolding c_str
message_overflows_example =
    message_overflows loud bench_uninit.message bench_reader refl (omega arith) refl

-- A control whose block fills the buffer.
abbrev verbose : Env ℕ ℤ
verbose = record bench {
  focas = record bench_focas { cnc_rdexecprog = λ h n w. (ew_ok, (2048, replicate 2048 b'A'), w) };
}
