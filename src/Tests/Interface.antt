-- ===== src/Tests/Interface.antt =====
-- Runs and instances for the kernel interface.
use adaptive_liblitmus.Base.{◌≡◌, refl, false, [], ◌∷◌, arith, some, take}
use adaptive_liblitmus.Base.Int.{pos}
use adaptive_liblitmus.Base.Chars.{Bytes, codes}
use adaptive_liblitmus.Kernel.{Kernel, Call, Outcome, mapped, map_failed, State, start}
use adaptive_liblitmus.KernelIface.Files.{read_file}
use adaptive_liblitmus.KernelIface.ControlPage.{enter_np, exit_np}
use adaptive_liblitmus.KernelIface.NonPreempt.{
  enter, leave, run_brackets, depth, Nests, run_brackets-Nests, exit_np-outermost,
  enter_np-map_failed,
}
use adaptive_liblitmus.KernelIface.Reading.{Delivers, read_file-Delivers}
use adaptive_liblitmus.KernelIface.Content.{read_file-content}
use adaptive_liblitmus.Tests.Disk.{disk, disk-OpensDocumented, disk-ReadsBounded, disk-Holds}

abbrev words : Bytes
words = codes "twelve bytes"

abbrev inside : State
inside = record { log = []; ctrl_page = mapped; np_flag = 1; errno = pos 0 }

read_file-Delivers_example : Delivers (disk words) 7 [] (read_file (disk words) (codes "f") 7 start)
read_file-Delivers_example =
    read_file-Delivers (disk words) (codes "f") 7 start (disk-OpensDocumented words)
      (disk-ReadsBounded words)

read_file-content_example :
    (read_file (disk words) (codes "f") 7 start).0 ≡ Outcome.value (some (take 7 words))
read_file-content_example =
    read_file-content (disk words) (codes "f") (λ l. words) 7 start (disk-Holds (codes "f") words)

run_brackets-Nests_example :
    Nests
      (depth (enter ∷ leave ∷ leave ∷ []) 1)
      (run_brackets (disk words) (enter ∷ leave ∷ leave ∷ []) inside)
run_brackets-Nests_example =
    run_brackets-Nests (disk words) (enter ∷ leave ∷ leave ∷ []) 1 inside
      (record { page = refl; flag = refl; outside = tt }) (omega arith)

exit_np-outermost_example :
    ((exit_np (disk words) inside).1.np_flag ≡ 0)
    × ((exit_np (disk words) inside).1.log
        ≡ Call.yield_cpu ∷ Call.load_preempt ∷ Call.store_flag 0 ∷ [])
exit_np-outermost_example = exit_np-outermost (disk words) inside refl refl

abbrev unmappable : Kernel
unmappable = record (disk words) { maps = λ l n fd. false }

enter_np-map_failed_example :
    ((enter_np unmappable start).0 ≡ Outcome.value tt)
    × ((enter_np unmappable start).1.ctrl_page ≡ map_failed)
    × ((enter_np unmappable (enter_np unmappable start).1).0 ≡ Outcome.fault)
enter_np-map_failed_example =
    enter_np-map_failed unmappable start 4095 3 refl refl (omega arith) refl refl
