-- ===== src/Streams/Writing.antt =====
-- kernel/filesystem/streams.cpp: writes, and the mode that a file was opened in.
use jsd_os.Prelude.{
  ℕ, ◌+◌, ◌≤◌, ◌<◌, ◌≡◌, refl, sym, subst, true, false, Option, none, some, max, min, leb,
  if◌then◌else◌, Bool, arith, Bool-cases, inl, inr,
}
use jsd_os.Prelude.Words.{word, u32}
use jsd_os.BlockCache.{Memory}
use jsd_os.Streams.{
  FileDataBlock, FileStream, FsDriver, Written, file_left, file_end, filesystem_create_stream,
  filesystem_open_file_handle, filesystem_allocate_space, filesystem_write_file, syscall_write_file,
  syscall_open_file_handle, syscall_close_file, filesystem_close_file,
}

-- What a write of a whole buffer comes to: the driver writes the bytes to the file with its new size,
-- after it gave space where the write reaches the end of the file.
abbrev pub wrote : {S : Type 0} → FsDriver S → ℕ → ℕ → Memory → FileStream → S → Written S
wrote drv offset len buf s disk =
    let file : FileDataBlock = record s.file { size = max s.file.size (offset + len) } in
    record {
      count = len;
      stream = record { file = file; modified = true };
      disk = drv.write_chunks buf s.file.location_on_disk offset len file (
          if leb s.file.size (offset + len)
          then (drv.allocate_chunks s.file.location_on_disk (offset + len) s.file disk).1
          else disk);
    }

module _ {S : Type 0} (drv : FsDriver S) where
  -- A stream of a plain file.
  abbrev plain_stream : ℕ → ℕ → Bool → FileStream
  plain_stream location size modified = record {
    file = record { location_on_disk = location; size = size; is_dir = false; is_readonly = false };
    modified = modified;
  }

  write_plain :
      (location size : ℕ) (modified : Bool) (offset len : ℕ) (buf : Memory) (disk : S)
      → offset + len < word
      → let s = plain_stream location size modified in
        (size ≤ offset + len
          → offset + len ≤ (drv.allocate_chunks location (offset + len) s.file disk).0)
        → filesystem_write_file drv offset buf len s disk ≡ some (wrote drv offset len buf s disk)
  unfolding filesystem_write_file filesystem_allocate_space
  write_plain location size modified offset len buf disk no_wrap room =
      let whole : file_end offset len ≡ offset + len = omega (arith, no_wrap) in
      let cut : u32 (offset + len) ≡ offset + len = omega (arith, no_wrap) in
      elim (Bool-cases (leb size (offset + len))) [
        | inl grows ↦
            let file = (plain_stream location size modified).file in
            let small : size ≤ offset + len = ground (arith, grows) in
            let given = room small in
            let given_size : min (drv.allocate_chunks location (offset + len) file disk).0
                  (offset + len)
                ≡ offset + len =
              ground (arith, given) in
            let new : max size (offset + len) ≡ offset + len = ground (arith, small) in
            let left : file_left (offset + len) offset ≡ len = omega (arith, no_wrap) in
            rw (whole, grows, cut, given_size, new, left) refl
        | inr fits ↦
            let new : max size (offset + len) ≡ size = ground (arith, fits) in
            rw (whole, fits, new) refl
      ]

  -- A write to a plain file that is writable returns the number of bytes asked for, after it has passed
  -- all of them to the driver at the offset with the file's new size, the larger of the old size and the
  -- end of the write, and marks the stream as modified; where the write reaches the end of the file the
  -- driver is first asked for space up to the end of the write, and is to give it. The end of the write
  -- is below 2 ^ 32.
  pub write_file_whole :
      (offset len : ℕ) (buf : Memory) (s : FileStream) (disk : S)
      → s.file.is_dir ≡ false
      → s.file.is_readonly ≡ false
      → offset + len < word
      → (s.file.size ≤ offset + len
          → offset + len
            ≤ (drv.allocate_chunks s.file.location_on_disk (offset + len) s.file disk).0)
      → filesystem_write_file drv offset buf len s disk ≡ some (wrote drv offset len buf s disk)
  write_file_whole offset len buf s disk plain writable no_wrap room =
      let same : s ≡ plain_stream s.file.location_on_disk s.file.size s.modified =
        rw (plain, writable) refl in
      subst
        (λ t.
          (t.file.size ≤ offset + len
            → offset + len
              ≤ (drv.allocate_chunks t.file.location_on_disk (offset + len) t.file disk).0)
          → filesystem_write_file drv offset buf len t disk
            ≡ some (wrote drv offset len buf t disk))
        (sym same)
        (write_plain s.file.location_on_disk s.file.size s.modified offset len buf disk no_wrap)
        room

  -- A file opened without FILE_WRITE cannot be changed: a write through the stream returns 0 and changes
  -- neither the stream nor the disk, closing it does not touch the disk, and neither call fails an
  -- assertion.
  pub open_read_only :
      (f : FileDataBlock) (offset len : ℕ) (buf : Option Memory) (disk : S)
      → let s = syscall_open_file_handle drv (some f) false in
        (syscall_write_file drv offset buf len s disk ≡ some (0, s, disk))
        × ((status : Bool) × (syscall_close_file drv s disk ≡ some (status, disk)))
  unfolding syscall_write_file syscall_open_file_handle filesystem_open_file_handle
      syscall_close_file filesystem_close_file filesystem_create_stream
  open_read_only f offset len none disk = (
    refl,
    elim (Bool-cases f.is_dir) [
      | inl dir ↦ (false, rw dir refl)
      | inr plain ↦ (true, rw plain refl)
    ],
  )
  open_read_only f offset len (some b) disk = elim (Bool-cases f.is_dir) [
    | inl dir ↦ (rw dir refl, (false, rw dir refl))
    | inr plain ↦ (rw plain refl, (true, rw plain refl))
  ]
