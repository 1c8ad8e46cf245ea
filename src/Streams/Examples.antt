-- ===== src/Streams/Examples.antt =====
-- The theorems on kernel/filesystem/streams.cpp with a driver of a disk that holds one file's bytes.
use jsd_os.Prelude.{◌-◌, ◌≡◌, refl, false, some, min, Bool, arith}
use jsd_os.BlockCache.{Memory, memcpy}
use jsd_os.Streams.{
  FileDataBlock, FileStream, FsDriver, filesystem_read_file, filesystem_write_file,
  syscall_write_file, syscall_open_file_handle, syscall_close_file,
}
use jsd_os.Streams.Reading.{read_file-count}
use jsd_os.Streams.Writing.{wrote, write_file_whole, open_read_only}

-- Space is given for whatever is asked.
abbrev one_file : FsDriver Memory
one_file = record {
  drive_read_only = false;
  read_chunks = λ dst location offset len file disk. memcpy dst 0 disk offset len;
  allocate_chunks = λ location size file disk. (size, disk);
  write_chunks = λ buf location offset len file disk. memcpy disk offset buf 0 len;
  flush_file = λ file disk. disk;
}

abbrev notes : FileDataBlock
notes = record { location_on_disk = 2; size = 100; is_dir = false; is_readonly = false }

abbrev open_notes : FileStream
open_notes = record { file = notes; modified = false }

abbrev zeros : Memory
zeros _ = 0

abbrev ones : Memory
ones _ = 1

read_file-count_example :
    (filesystem_read_file one_file 90 zeros 20 open_notes ones).count ≡ min 20 (100 - 90)
read_file-count_example =
    read_file-count one_file 90 20 zeros open_notes ones refl (omega arith) (omega arith)
      (omega arith)

write_file_whole_example :
    filesystem_write_file one_file 90 zeros 20 open_notes ones
    ≡ some (wrote one_file 90 20 zeros open_notes ones)
write_file_whole_example =
    write_file_whole one_file 90 20 zeros open_notes ones refl refl (omega arith)
      (λ grows. omega arith)

open_read_only_example :
    let s = syscall_open_file_handle one_file (some notes) false in
    (syscall_write_file one_file 0 (some zeros) 10 s ones ≡ some (0, s, ones))
    × ((status : Bool) × (syscall_close_file one_file s ones ≡ some (status, ones)))
open_read_only_example = open_read_only one_file notes 0 10 (some zeros) ones
