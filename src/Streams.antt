-- ===== src/Streams.antt =====
-- kernel/filesystem/streams.cpp: open files. The driver of the drive that a file is on is a parameter,
-- `FsDriver`, over the state `S` of the disk; a failed assertion stops the kernel and is `none`.
mod Examples
use jsd_os.Prelude.{
  ℕ, ◌+◌, ◌-◌, ◌*◌, ◌%◌, ◌≤◌, ◌<◌, ◌≡◌, Bool, true, false, not, ◌&&◌, ◌||◌, Option, none, some, ltb,
  leb, min, if◌then◌else◌,
}
use jsd_os.Prelude.Words.{u32}
use jsd_os.Chunks.{file_word}
use jsd_os.BlockCache.{Memory}
pub mod Reading
pub mod Writing

-- `file_data_block`, with the flags that streams look at.
pub record FileDataBlock : Type 0 where
  pub location_on_disk : ℕ
  pub size : ℕ
  pub is_dir : Bool
  pub is_readonly : Bool

pub record FileStream : Type 0 where
  pub file : FileDataBlock
  pub modified : Bool

-- `filesystem_driver` with the drive it works on: what it reads into the buffer, the space it gives and
-- the disk it leaves. All of its functions are there.
pub record FsDriver (S : Type 0) : Type 0 where
  pub drive_read_only : Bool
  pub read_chunks : Memory → ℕ → ℕ → ℕ → FileDataBlock → S → Memory
  pub allocate_chunks : ℕ → ℕ → FileDataBlock → S → ℕ × S
  pub write_chunks : Memory → ℕ → ℕ → ℕ → FileDataBlock → S → S
  pub flush_file : FileDataBlock → S → S

pub filesystem_create_stream : FileDataBlock → FileStream
filesystem_create_stream f = record { file = f; modified = false }

-- offset + len and size - offset of `file_size_t` values.
abbrev pub file_end : ℕ → ℕ → ℕ
file_end offset len = (offset + len) % file_word

abbrev pub file_left : ℕ → ℕ → ℕ
file_left size offset = u32 ((size + file_word - offset) % file_word)

-- What a read returns, with the buffer; and a write, with the stream and the disk.
pub record Read : Type 0 where
  pub count : ℕ
  pub dst : Memory

pub record Written (S : Type 0) : Type 0 where
  pub count : ℕ
  pub stream : FileStream
  pub disk : S

module _ {S : Type 0} (drv : FsDriver S) where
  -- `write` is the test of FILE_WRITE in the mode.
  pub filesystem_open_file_handle : FileDataBlock → Bool → Option FileStream
  unfolding filesystem_create_stream
  filesystem_open_file_handle f write =
      if write && f.is_readonly
      then none
      else if write && drv.drive_read_only
      then none
      else if f.is_dir
      then none
      else some (filesystem_create_stream (if write then f else record f { is_readonly = true }))

  -- The status, and the disk. A stream that was written is asserted to be writable.
  pub filesystem_close_file : Option FileStream → S → Option (Bool × S)
  filesystem_close_file none disk = some (false, disk)
  filesystem_close_file (some s) disk =
      if s.modified
      then (if s.file.is_readonly then none else some (true, drv.flush_file s.file disk))
      else some (true, disk)

  -- The number of bytes that `filesystem_read_file` asks the driver for.
  pub read_length : ℕ → ℕ → FileDataBlock → ℕ
  read_length offset len file =
      if file.is_dir
      then len
      else if leb file.size offset
      then 0
      else if ltb file.size (file_end offset len)
      then file_left file.size offset
      else len

  pub filesystem_read_file : ℕ → Memory → ℕ → FileStream → S → Read
  unfolding read_length
  filesystem_read_file offset dst len s disk =
      let n : ℕ = read_length offset len s.file in
      if not s.file.is_dir && leb s.file.size offset
      then record { count = 0; dst = dst }
      else record {
        count = n;
        dst = drv.read_chunks dst s.file.location_on_disk offset n s.file disk;
      }

  -- The driver takes a size of 32 bits.
  pub filesystem_allocate_space : FileStream → ℕ → ℕ → S → FileStream × S
  filesystem_allocate_space s location requested_size disk =
      let (allocated_size, grown) = drv.allocate_chunks location (u32 requested_size) s.file disk in
      (record s { file = record s.file { size = min allocated_size requested_size } }, grown)

  -- The stream is asserted to be writable before everything.
  pub filesystem_write_file : ℕ → Memory → ℕ → FileStream → S → Option (Written S)
  unfolding filesystem_allocate_space
  filesystem_write_file offset buf len s disk =
      let grows : Bool = not s.file.is_dir && leb s.file.size (file_end offset len) in
      let (t, ready) =
        if grows
        then filesystem_allocate_space s s.file.location_on_disk (file_end offset len) disk
        else (s, disk) in
      let n : ℕ = if grows then file_left t.file.size offset else len in
      if s.file.is_readonly
      then none
      else some (record {
        count = n;
        stream = record t { modified = true };
        disk = drv.write_chunks buf t.file.location_on_disk offset n t.file ready;
      })

  -- The system calls, with null pointers as `none`.
  pub syscall_read_file : ℕ → Option Memory → ℕ → Option FileStream → S → ℕ
  unfolding filesystem_read_file
  syscall_read_file offset none len f disk = 0
  syscall_read_file offset (some dst) len none disk = 0
  syscall_read_file offset (some dst) len (some f) disk =
      (filesystem_read_file offset dst len f disk).count

  pub syscall_write_file :
      ℕ → Option Memory → ℕ → Option FileStream → S → Option (ℕ × Option FileStream × S)
  unfolding filesystem_write_file
  syscall_write_file offset none len f disk = some (0, f, disk)
  syscall_write_file offset (some buf) len none disk = some (0, none, disk)
  syscall_write_file offset (some buf) len (some f) disk =
      if f.file.is_readonly
      then some (0, some f, disk)
      else elim (filesystem_write_file offset buf len f disk) [
        | none ↦ none
        | some w ↦ some (w.count, some w.stream, w.disk)
      ]

  pub syscall_open_file_handle : Option FileDataBlock → Bool → Option FileStream
  unfolding filesystem_open_file_handle
  syscall_open_file_handle none write = none
  syscall_open_file_handle (some f) write = filesystem_open_file_handle f write

  -- 0 or -1; a file that is there is closed with success.
  pub syscall_close_file : Option FileStream → S → Option (Bool × S)
  unfolding filesystem_close_file
  syscall_close_file none disk = some (false, disk)
  syscall_close_file (some s) disk = elim (filesystem_close_file (some s) disk) [
    | none ↦ none
    | some (status, left) ↦ some (true, left)
  ]
