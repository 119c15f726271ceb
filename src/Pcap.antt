-- ===== src/Pcap.antt =====
-- connection/pcap_stream.rs: the file that a packet capture is written to, and its size limit. The
-- file system is a parameter.
pub mod Limit
use protun.Base.{
  ℕ, ◌+◌, ◌%◌, ◌^◌, Bool, true, false, ◌&&◌, Option, none, some, String, List, ltb, if◌then◌else◌,
  length,
}
use protun.Base.Int.{ℤ}
use protun.Io.{IoResult, ok, err}
use protun.Api.Config.{FileWriteMode, append, overwrite, PcapFile, PcapFileInfo}

-- What the code asks of the file system. A write gives the file after it and says if it failed.
pub record FileSystem : Type 1 where
  pub File : Type 0
  pub Disk : Type 0
  pub parent : String → Option String
  pub create_dir_all : Disk → String → Disk × IoResult (Unit {0})
  pub open_path : Disk → String → Bool → Disk × IoResult File
  pub from_raw_fd : ℤ → File
  pub len : File → IoResult ℕ
  pub write_all : File → List ℕ → File × IoResult (Unit {0})

module _ (fs : FileSystem) where
  open fs use {File, Disk}

  pub record PcapStream : Type 0 where
    pub file_info : PcapFileInfo
    pub file : File
    pub size : ℕ
    pub max_bytes : Option ℕ
    pub at_max_size : Bool

  abbrev is_append : FileWriteMode → Bool
  is_append append = true
  is_append overwrite = false

  create_parent : Disk → Option String → Disk × IoResult (Unit {0})
  create_parent d none = (d, ok tt)
  create_parent d (some dir) = fs.create_dir_all d dir

  open_created : Disk × IoResult (Unit {0}) → String → FileWriteMode → Disk × IoResult File
  open_created (d, err e) path mode = (d, err e)
  open_created (d, ok u) path mode = fs.open_path d path (is_append mode)

  pub open_file : Disk → PcapFile → Disk × IoResult File
  unfolding create_parent open_created
  open_file d (PcapFile.path path mode) = open_created (create_parent d (fs.parent path)) path mode
  open_file d (PcapFile.fd fd) = (d, ok (fs.from_raw_fd fd))

  unfoldable pub with_size : PcapFileInfo → File → IoResult ℕ → IoResult PcapStream
  with_size info file (err e) = err e
  with_size info file (ok size) = ok (record {
    file_info = info;
    file = file;
    size = size;
    max_bytes = info.max_bytes;
    at_max_size = false;
  })

  unfoldable pub with_file : PcapFileInfo → Disk × IoResult File → Disk × IoResult PcapStream
  unfolding with_size
  with_file info (d, err e) = (d, err e)
  with_file info (d, ok file) = (d, with_size info file (fs.len file))

  unfoldable pub new : Disk → PcapFileInfo → Disk × IoResult PcapStream
  unfolding open_file with_file
  new d info = with_file info (open_file d info.file)

  abbrev pub passes : Option ℕ → ℕ → Bool
  passes none size = false
  passes (some max_size) size = ltb max_size size

  unfoldable pub written : PcapStream → List ℕ → File × IoResult (Unit {0}) → PcapStream
  written s bytes (file, err e) = record s { file = file }
  written s bytes (file, ok u) = record s { file = file; size = (s.size + length bytes) % 2 ^ 64 }

  unfoldable pub write : PcapStream → List ℕ → PcapStream
  unfolding written
  write s bytes =
      if s.at_max_size
      then s
      else if passes s.max_bytes ((s.size + length bytes) % 2 ^ 64)
      then record s { at_max_size = true }
      else written s bytes (fs.write_all s.file bytes)
