-- ===== src/Fs/Fat16/Calls.antt =====
-- The calls on an open file.
pub mod Seeking
pub mod Reading
use ra_os.Base.{
  Outcome, done, failed, fails, ℕ, zero, suc, ◌+◌, ◌-◌, ◌*◌, ◌/◌, ◌%◌, ◌^◌, ◌==◌, if◌then◌else◌,
  ltb, leb, Bool, true, false, Option, none, some, List, [], ◌∷◌, ◌++◌, ◌>>=◌, bit_and, ok, err,
  eio, einvarg, eunimp, Error, Result,
}
use ra_os.Disk.Streamer.{Contents, Stream, sector_size}
use ra_os.Fs.File.{FileStat, SeekMode, seek_set, seek_cur, seek_end, other}
use ra_os.Fs.Fat16.{attribute, filesize, read_only, DirectoryItem, FatPrivate}
use ra_os.Fs.Fat16.Clusters.{get_first_cluster_for_directory_item, read_items_of_directory}
use ra_os.Fs.Fat16.Lookup.{FatItem, file_item, directory_item, FatFileDescriptor}

-- The loop of `fat16_read` over the elements.
unfoldable pub read_loop :
    Contents → FatPrivate → DirectoryItem → ℕ → ℕ → ℕ → Option (Outcome (List ℕ))
unfolding read_items_of_directory
read_loop disk fat_private item zero offset size = some (done [])
read_loop disk fat_private item (suc nmemb) offset size = do
  res ←
      read_items_of_directory (size / sector_size + 1) disk fat_private
        (get_first_cluster_for_directory_item item) offset size
  elim res [
    | failed e ↦ some (failed e)
    | done bytes ↦ do
      rest ← read_loop disk fat_private item nmemb ((offset + size) % 2 ^ 32) size
      some (elim rest [ failed e ↦ failed e | done more ↦ done (bytes ++ more) ])
  ]

-- The number of elements and the bytes. The position of the descriptor is not changed. For a
-- directory the code takes `struct fat_directory` for an item.
unfoldable pub fat16_read :
    Contents → FatPrivate → FatFileDescriptor → ℕ → ℕ → Option (Outcome (ℕ × List ℕ))
unfolding read_loop
fat16_read disk fat_private desc size nmemb = elim desc.item [
  | directory_item dir ↦ none
  | file_item item ↦ do
    res ← read_loop disk fat_private item nmemb desc.pos size
    some (elim res [ failed e ↦ failed e | done bytes ↦ done (nmemb, bytes) ])
]

-- The switch of `fat16_seek`.
unfoldable pub seek_switch :
    FatFileDescriptor → ℕ → SeekMode → Result (Unit {0}) × FatFileDescriptor
seek_switch desc offset seek_set = (ok tt, record desc { pos = offset })
seek_switch desc offset seek_end = (err eunimp, desc)
seek_switch desc offset seek_cur = (ok tt, record desc { pos = (desc.pos + offset) % 2 ^ 32 })
seek_switch desc offset other = (err einvarg, desc)

unfoldable pub fat16_seek : FatFileDescriptor → ℕ → SeekMode → Result (Unit {0}) × FatFileDescriptor
unfolding seek_switch
fat16_seek desc offset seek_mode = elim desc.item [
  | directory_item dir ↦ (err einvarg, desc)
  | file_item item ↦
      if leb (filesize item) offset then (err eio, desc) else seek_switch desc offset seek_mode
]

unfoldable pub fat16_stat : FatFileDescriptor → Result FileStat
fat16_stat desc = elim desc.item [
  | directory_item dir ↦ err einvarg
  | file_item item ↦ ok (record {
    flags = (if bit_and (attribute item) read_only == 0 then 0x00 else read_only);
    size = filesize item;
  })
]
