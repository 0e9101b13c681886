-- ===== src/Tests/Disk.antt =====
-- A small kernel to run the model on: every file has the same content, that of the time it is
-- opened at, which reads hand over in pieces of at most 5 bytes; 4 CPUs are online; most calls
-- succeed.
use adaptive_liblitmus.Base.{
  ℕ, zero, suc, ◌<◌, ◌≡◌, refl, sym, true, [], ◌∷◌, arith, length, take, drop, take-append-drop,
  length-take-le, ltb, leb, ◌&&◌, if◌then◌else◌, some,
}
use adaptive_liblitmus.Base.Int.{ℤ, pos}
use adaptive_liblitmus.Base.Chars.{Bytes}
use adaptive_liblitmus.Kernel.{Kernel, Header, RtTask, Call, Log}
use adaptive_liblitmus.Kernel.Descriptors.{OpensDocumented}
use adaptive_liblitmus.KernelIface.Reading.{ReadsBounded}
use adaptive_liblitmus.KernelIface.Content.{Hands, Holds, Shows}

abbrev pub header : Header
header = record {
  class_hard = pos 0;
  class_soft = pos 1;
  class_best_effort = pos 2;
  lowest_priority = 511;
  highest_priority = 1;
  max_priority = 512;
  is_valid_fixed_prio = λ p. leb 1 p && leb p 511;
  no_enforcement = 0;
  precise_enforcement = 2;
  task_sporadic = 0;
}

abbrev pub some_task : RtTask
some_task = record {
  exec_cost = 0;
  period = 0;
  relative_deadline = 0;
  phase = 0;
  cpu = pos 0;
  priority = 0;
  cls = pos 0;
  budget_policy = 0;
  release_policy = 0;
}

-- What is unread of the file that was opened last.
abbrev pub unread : (Log → Bytes) → Log → Bytes
unread content [] = []
unread content (Call.open_file f m ∷ l) = content l
unread content (Call.read_bytes fd n ∷ l) = drop (if ltb n 5 then n else 5) (unread content l)
unread content (c ∷ l) = unread content l

abbrev pub answer_of : Call → ℤ
answer_of (Call.open_file f m) = pos 3
answer_of Call.page_size = pos 4096
answer_of Call.online_cpus = pos 4
answer_of Call.get_tid = pos 42
answer_of (Call.od_open fd t i c) = pos 9
answer_of c = pos 0

abbrev pub disk_at : (Log → Bytes) → Kernel
disk_at content = record {
  header = header;
  answer = λ l c. answer_of c;
  errno_of = λ l c. pos 22;
  input = λ l fd n. some (take (if ltb n 5 then n else 5) (unread content l));
  maps = λ l n fd. true;
  fresh_flag = 0;
  flag_bits = 31;
  preempt = λ l. true;
  task_param = λ l pid. some_task;
  job_no = λ l. 1;
  timestamp = λ l. 1000;
  child_status = λ l pid. some 0;
}

abbrev pub disk : Bytes → Kernel
disk content = disk_at (λ l. content)

pub disk-OpensDocumented : (content : Bytes) → OpensDocumented (disk content)
disk-OpensDocumented content l f m = omega arith

pub disk-ReadsBounded : (content : Bytes) → ReadsBounded (disk content)
disk-ReadsBounded content l fd n bs e =
    ground (arith, length-take-le (if ltb n 5 then n else 5) (unread (λ _. content) l))

nothing_left : (n : ℕ) (xs : Bytes) → 0 < n → length (take n xs) ≡ 0 → drop n xs ≡ []
nothing_left zero xs h e = absurd (omega arith)
nothing_left (suc n) [] h e = refl
nothing_left (suc n) (x ∷ xs) h e = absurd (omega arith)

pub disk-Hands :
    (content : Log → Bytes) (l : Log) (n : ℕ)
    → 0 < n
    → Hands (disk_at content) (pos 3) (unread content) l n
disk-Hands content l n h = record {
  chunk = take (if ltb n 5 then n else 5) (unread content l);
  rest = drop (if ltb n 5 then n else 5) (unread content l);
  handed = refl;
  split = sym (take-append-drop (if ltb n 5 then n else 5) (unread content l));
  fits = ground (arith, length-take-le (if ltb n 5 then n else 5) (unread content l));
  after = refl;
  at_end = λ p e. nothing_left (if ltb n 5 then n else 5) (unread content l) (ground arith) e;
}

pub disk-Shows : (f : Bytes) (content : Log → Bytes) → Shows (disk_at content) f content
disk-Shows f content = record {
  fd = 3;
  left = unread content;
  opens = λ l. refl;
  whole = λ l. refl;
  serves = disk-Hands content;
}

pub disk-Holds : (f content : Bytes) → Holds (disk content) f content
disk-Holds f content = disk-Shows f (λ l. content)
