-- ===== src/Streams/Reading.antt =====
-- kernel/filesystem/streams.cpp: the length of reads.
use jsd_os.Prelude.{ℕ, ◌+◌, ◌-◌, ◌<◌, ◌≡◌, false, min, arith}
use jsd_os.Prelude.Words.{word}
use jsd_os.Chunks.{file_word}
use jsd_os.BlockCache.{Memory}
use jsd_os.Streams.{FileStream, FsDriver, read_length, filesystem_read_file}

module _ {S : Type 0} (drv : FsDriver S) where
  -- A read of a file returns as many bytes as were asked for or as the file has from the offset on,
  -- whichever is less, where the end does not wrap.
  pub read_file-count :
      (offset len : ℕ) (dst : Memory) (s : FileStream) (disk : S)
      → s.file.is_dir ≡ false
      → len < word
      → offset + len < file_word
      → s.file.size < file_word
      → (filesystem_read_file drv offset dst len s disk).count ≡ min len (s.file.size - offset)
  unfolding filesystem_read_file read_length
  read_file-count offset len dst s disk plain short no_wrap sized = ground arith
