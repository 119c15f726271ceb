-- ===== src/Pcap/Limit.antt =====
-- connection/pcap_stream.rs: what a capture writes stays within its limit.
use protun.Base.{
  ℕ, ◌+◌, ◌%◌, ◌^◌, ◌≤◌, ◌<◌, ◌≡◌, refl, ap, ◌∙◌, true, false, some, List, [], ◌∷◌, arith, length,
  lt→ltb, if_elim, All, subst, if◌then◌else◌, Bool,
}
use native.Mathlib.Nat.{mod-eq_of_lt}
use protun.Io.{IoResult, ok, err, OnOk}
use protun.Api.Config.{PcapFileInfo}
use protun.Pcap.{
  FileSystem, PcapStream, open_file, new, with_file, with_size, write, written, passes,
}

-- A file has a length, which the system tells; and a write, if it fails too, makes it longer by the bytes
-- that were to be written, at most.
pub record HasLength (fs : FileSystem) : Type 0 where
  pub file_len : fs.File → ℕ
  pub len_lem : (f : fs.File) (n : ℕ) → fs.len f ≡ ok n → file_len f ≡ n
  pub write_all_lem :
      (f : fs.File) (bytes : List ℕ) → file_len (fs.write_all f bytes).0 ≤ file_len f + length bytes

module _ (fs : FileSystem) where
  with_size-file_info :
      (info : PcapFileInfo) (file : fs.File) (r : IoResult ℕ)
      → OnOk (λ s. s.file_info ≡ info) (with_size fs info file r)
  unfolding with_size
  with_size-file_info info file (err e) = tt
  with_size-file_info info file (ok size) = refl

  with_file-file_info :
      (info : PcapFileInfo) (r : fs.Disk × IoResult fs.File)
      → OnOk (λ s. s.file_info ≡ info) (with_file fs info r).1
  unfolding with_file
  with_file-file_info info (d, err e) = tt
  with_file-file_info info (d, ok file) = with_size-file_info info file (fs.len file)

  pub new-file_info :
      (d : fs.Disk) (info : PcapFileInfo) → OnOk (λ s. s.file_info ≡ info) (new fs d info).1
  unfolding new
  new-file_info d info = with_file-file_info info (open_file fs d info.file)

  written-file_info :
      (s : PcapStream fs) (bytes : List ℕ) (r : fs.File × IoResult (Unit {0}))
      → (written fs s bytes r).file_info ≡ s.file_info
  unfolding written
  written-file_info s bytes (file, err e) = refl
  written-file_info s bytes (file, ok u) = refl

  pub write-file_info :
      (s : PcapStream fs) (bytes : List ℕ) → (write fs s bytes).file_info ≡ s.file_info
  unfolding write
  write-file_info s bytes =
      let P = (λ (t : PcapStream fs). t.file_info ≡ s.file_info) in
      if_elim P s.at_max_size (λ full. refl)
        λ more.
          if_elim P (passes fs s.max_bytes ((s.size + length bytes) % 2 ^ 64)) (λ over. refl)
            (λ fits. written-file_info s bytes (fs.write_all s.file bytes))

  abbrev pub writes : PcapStream fs → List (List ℕ) → PcapStream fs
  writes s [] = s
  writes s (bytes ∷ more) = writes (write fs s bytes) more

  -- The bytes of a write that was made and failed: any part of them may be in the file, and none is counted.
  abbrev pub failed_bytes : IoResult (Unit {0}) → List ℕ → ℕ
  failed_bytes (ok u) bytes = 0
  failed_bytes (err e) bytes = length bytes

  abbrev pub uncounted_by : PcapStream fs → List ℕ → ℕ
  uncounted_by s bytes =
      if s.at_max_size
      then 0
      else if passes fs s.max_bytes ((s.size + length bytes) % 2 ^ 64)
      then 0
      else failed_bytes (fs.write_all s.file bytes).1 bytes

  abbrev pub uncounted : PcapStream fs → List (List ℕ) → ℕ
  uncounted s [] = 0
  uncounted s (bytes ∷ more) = uncounted_by s bytes + uncounted (write fs s bytes) more

  write_full : (s : PcapStream fs) (bytes : List ℕ) → s.at_max_size ≡ true → write fs s bytes ≡ s
  unfolding write
  write_full s bytes full = rw full refl

  writes_full :
      (more : List (List ℕ)) (s : PcapStream fs) → s.at_max_size ≡ true → writes s more ≡ s
  writes_full [] s full = refl
  writes_full (bytes ∷ more) s full =
      ap (λ t. writes t more) (write_full s bytes full) ∙ writes_full more s full

  write_over :
      (limit : ℕ) (s : PcapStream fs) (bytes : List ℕ)
      → s.max_bytes ≡ some limit
      → s.at_max_size ≡ false
      → limit < (s.size + length bytes) % 2 ^ 64
      → write fs s bytes ≡ record s { at_max_size = true }
  unfolding write
  write_over limit s bytes max open_yet over =
      rw (open_yet, max, lt→ltb limit ((s.size + length bytes) % 2 ^ 64) over) refl

  -- The write that would pass the limit is not made, and marks the capture as full; nothing is written
  -- to a full capture any more.
  pub limit_reached :
      (limit : ℕ) (s : PcapStream fs) (bytes : List ℕ) (more : List (List ℕ))
      → s.max_bytes ≡ some limit
      → s.at_max_size ≡ false
      → limit < (s.size + length bytes) % 2 ^ 64
      → ((writes s (bytes ∷ more)).at_max_size ≡ true) × ((writes s (bytes ∷ more)).file ≡ s.file)
  limit_reached limit s bytes more max open_yet over =
      let all =
        ap (λ t. writes t more) (write_over limit s bytes max open_yet over)
        ∙ writes_full more (record s { at_max_size = true }) refl in
      (ap (λ (t : PcapStream fs). t.at_max_size) all, ap (λ (t : PcapStream fs). t.file) all)

module _ (fs : FileSystem) (law : HasLength fs) where
  -- The capture has this limit, and its size is within it and is that of the file, less the bytes that
  -- were not counted.
  abbrev pub WithinLimit : ℕ → ℕ → PcapStream fs → Type 0
  WithinLimit limit lost s =
      (s.max_bytes ≡ some limit) × (s.size ≤ limit) × (law.file_len s.file ≤ s.size + lost)

  -- If the size is within the limit.
  abbrev Starts : ℕ → PcapStream fs → Type 0
  Starts limit s = s.size ≤ limit → WithinLimit limit 0 s

  with_size-Starts :
      (limit : ℕ) (info : PcapFileInfo) (file : fs.File) (r : IoResult ℕ)
      → fs.len file ≡ r
      → info.max_bytes ≡ some limit
      → OnOk (Starts limit) (with_size fs info file r)
  unfolding with_size
  with_size-Starts limit info file (err e) told max = tt
  with_size-Starts limit info file (ok n) told max =
      let counted = law.len_lem file n told in λ small. (max, small, omega arith)

  with_file-Starts :
      (limit : ℕ) (info : PcapFileInfo) (r : fs.Disk × IoResult fs.File)
      → info.max_bytes ≡ some limit
      → OnOk (Starts limit) (with_file fs info r).1
  unfolding with_file
  with_file-Starts limit info (d, err e) max = tt
  with_file-Starts limit info (d, ok file) max =
      with_size-Starts limit info file (fs.len file) refl max

  written-WithinLimit :
      (limit lost : ℕ) (s : PcapStream fs) (bytes : List ℕ) (r : fs.File × IoResult (Unit {0}))
      → law.file_len r.0 ≤ law.file_len s.file + length bytes
      → limit + length bytes < 2 ^ 64
      → passes fs s.max_bytes ((s.size + length bytes) % 2 ^ 64) ≡ false
      → WithinLimit limit lost s
      → WithinLimit limit (lost + failed_bytes fs r.1 bytes) (written fs s bytes r)
  unfolding written
  written-WithinLimit limit lost s bytes (file, err e) grown fits_u64 fits (max, small, counted) =
      (max, small, omega arith)
  written-WithinLimit limit lost s bytes (file, ok u) grown fits_u64 fits (max, small, counted) =
      let exact : (s.size + length bytes) % 2 ^ 64 ≡ s.size + length bytes =
        mod-eq_of_lt (omega arith) in
      (
        max,
        ground (arith, ap (λ m. passes fs m ((s.size + length bytes) % 2 ^ 64)) max),
        omega (arith, exact),
      )

  write-WithinLimit :
      (limit lost : ℕ) (s : PcapStream fs) (bytes : List ℕ)
      → limit + length bytes < 2 ^ 64
      → WithinLimit limit lost s
      → WithinLimit limit (lost + uncounted_by fs s bytes) (write fs s bytes)
  unfolding write
  write-WithinLimit limit lost s bytes fits_u64 (max, small, counted) =
      by_tests s.at_max_size (passes fs s.max_bytes ((s.size + length bytes) % 2 ^ 64)) refl
    where
      by_tests :
          (full over : Bool)
          → passes fs s.max_bytes ((s.size + length bytes) % 2 ^ 64) ≡ over
          → WithinLimit limit
              (lost
                + (if full
                    then 0
                    else if over
                    then 0
                    else failed_bytes fs (fs.write_all s.file bytes).1 bytes))
              (if full
                then s
                else if over
                then record s { at_max_size = true }
                else written fs s bytes (fs.write_all s.file bytes))
      by_tests true over e = (max, small, omega arith)
      by_tests false true e = (max, small, omega arith)
      by_tests false false e =
          written-WithinLimit limit lost s bytes (fs.write_all s.file bytes)
            (law.write_all_lem s.file bytes) fits_u64 e (max, small, counted)

  within_limit :
      (limit lost : ℕ) (more : List (List ℕ)) (s : PcapStream fs)
      → All (λ bytes. limit + length bytes < 2 ^ 64) more
      → WithinLimit limit lost s
      → law.file_len (writes fs s more).file ≤ limit + lost + uncounted fs s more
  within_limit limit lost [] s fit (max, small, counted) = omega arith
  within_limit limit lost (bytes ∷ more) s fit h =
      let rest =
        within_limit limit (lost + uncounted_by fs s bytes) more (write fs s bytes) fit.1
          (write-WithinLimit limit lost s bytes fit.0 h) in
      omega arith

  -- A capture with a limit that is opened on a file within it: whatever is written to it, in pieces that
  -- do not take the limit past a u64, the file never gets longer than the limit and the bytes of those
  -- writes that were made and failed, which are not counted.
  pub writes-WithinLimit :
      (limit : ℕ) (disk : fs.Disk) (info : PcapFileInfo) (s : PcapStream fs) (more : List (List ℕ))
      → (new fs disk info).1 ≡ ok s
      → info.max_bytes ≡ some limit
      → s.size ≤ limit
      → All (λ bytes. limit + length bytes < 2 ^ 64) more
      → law.file_len (writes fs s more).file ≤ limit + uncounted fs s more
  unfolding new
  writes-WithinLimit limit disk info s more made max small fit =
      let starts = with_file-Starts limit info (open_file fs disk info.file) max in
      let bounded =
        within_limit limit 0 more s fit (subst (OnOk (Starts limit)) made starts small) in
      omega arith
