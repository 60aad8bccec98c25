-- ===== src/Safeloader/Image/Upgrade.antt =====
-- The image that `generate_sysupgrade_image` of tools/tplink-safeloader/tplink-safeloader.c makes.
use safewrt.Common.{
  ◌+◌, ◌-◌, ◌%◌, ◌^◌, ◌≤◌, ◌<◌, ◌≡◌, ap, ◌∙◌, sym, true, false, none, some, List, [], ◌∷◌, ◌++◌,
  All, Bytes, length, drop, length-append, replicate, arith, lt→ltb,
}
use safewrt.Common.Outcome.{ok}
use safewrt.Common.Text.{same_text, same_text_refl}
use safewrt.Common.Memory.{write}
use safewrt.Safeloader.Layout.{
  Slot, flash_row, flash_array, FlashPartition, ImagePartition, DeviceInfo, no_partition, last_row,
}
use safewrt.Safeloader.Pieces.{Malloc}
use safewrt.Safeloader.Image.{find_ends, generate_sysupgrade_image}
use safewrt.Safeloader.Image.Partitions.{Named, parts_array}
use safewrt.Safeloader.Image.Sysupgrade.{
  named, slots, Fits, IsOther, find_ends_other, find_image_lem, drop-flash_array,
  flash_array-append,
}
use mathlib.Core.List.{append-nil}
use safewrt.Safeloader.Image.Copying.{blank_block, copy_range-slots, length-slots}

module _ (before mid after : List Slot) (first last : Slot) (more : List FlashPartition) where
  -- A layout that has the first row of the upgrade before its last.
  abbrev pub layout : List FlashPartition
  layout =
      flash_array before
        (flash_row first ∷ flash_array mid (flash_row last ∷ flash_array after (last_row ∷ more)))

  find_ends_lem :
      (first_name last_name : Bytes)
      → All (IsOther first_name last_name) before
      → All (IsOther first_name last_name) mid
      → All (IsOther first_name last_name) after
      → same_text first.label first_name ≡ true
      → same_text last.label last_name ≡ true
      → same_text last.label first_name ≡ false
      → find_ends layout first_name last_name 0 (record { first = none; last = none })
        ≡ ok (record {
          first = some (length before, flash_row first);
          last = some (length before + 1 + length mid, flash_row last);
        })
  unfolding find_ends
  find_ends_lem first_name last_name hb hm ha hf hl hd =
      find_ends_other before _ first_name last_name 0 (record { first = none; last = none }) hb
      ∙ rw (find_ends, hf)
          (find_ends_other mid _ first_name last_name (0 + length before + 1)
              (record { first = some (0 + length before, flash_row first); last = none }) hm
            ∙ rw (find_ends, hd, hl)
                (find_ends_other after _ first_name last_name _ _ ha
                  ∙ ap
                      (λ i. ok (record {
                        first = some (i, flash_row first);
                        last = some (i + 1 + length mid, flash_row last);
                      }))
                      no_offset))
    where
      no_offset : 0 + length before ≡ length before
      no_offset = omega arith

  -- The rows of the upgrade.
  abbrev upgrade_rows : List Slot
  upgrade_rows = first ∷ (mid ++ (last ∷ []))

  behind_before :
      drop (length before) layout ≡ flash_array upgrade_rows (flash_array after (last_row ∷ more))
  behind_before =
      drop-flash_array before _
      ∙ ap (◌∷◌ (flash_row first))
          (sym (flash_array-append mid (last ∷ []) (flash_array after (last_row ∷ more))))

  -- A layout that has the first row of the upgrade before its last, and no other row of the two
  -- names; contents that fit their rows and do not reach into the next; and a partition for the last
  -- row: the image is the flash from the first row on, each content at its row's base, up to the
  -- end of the last content, and 0xff elsewhere.
  pub generate_sysupgrade_image_lem :
      (malloc : Malloc) (info : DeviceInfo) (ns : List Named) (tail : List ImagePartition)
      (n : Named) (block : Bytes)
      → info.partitions ≡ layout
      → info.first_sysupgrade_partition ≡ some first.label
      → info.last_sysupgrade_partition ≡ some last.label
      → same_text last.label first.label ≡ false
      → All (IsOther first.label last.label) before
      → All (IsOther first.label last.label) mid
      → All (IsOther first.label last.label) after
      → named ns last.label ≡ some n
      → Fits ns first.base upgrade_rows
      → last.base < 2 ^ 32
      → length n.body < 2 ^ 63
      → malloc (last.base - first.base + length n.body) ≡ some block
      → length block ≡ last.base - first.base + length n.body
      → generate_sysupgrade_image malloc info (parts_array ns (no_partition ∷ tail))
        ≡ ok (slots ns first.base upgrade_rows)
  unfolding generate_sysupgrade_image
  generate_sysupgrade_image_lem malloc info ns tail n block hp hf hl hd hb hm ha hn hs hw hn' hm'
        hb' =
      rw
        (
          hp,
          hf,
          hl,
          find_ends_lem first.label last.label hb hm ha (same_text_refl first.label)
              (same_text_refl last.label) hd,
          lt→ltb (length before) (length before + 1 + length mid) (omega arith),
          find_image_lem ns (no_partition ∷ tail) last.label n hn,
          len_is,
          hm',
        )
        (rw (blank, rounds, behind_before)
          (copy_range-slots upgrade_rows (flash_array after (last_row ∷ more)) ns tail []
              (last.base - first.base + length n.body) first.base first.base (omega arith) hs
              (omega (arith, ends, below))
            ∙ ap ok (rw nothing_left (append-nil (slots ns first.base upgrade_rows)))))
    where
      ends : first.base + length (slots ns first.base upgrade_rows) ≡ last.base + length n.body
      ends = rw hn at (length-slots ns (first ∷ mid) last first.base hs).1

      below : first.base ≤ last.base
      below = (length-slots ns (first ∷ mid) last first.base hs).0

      len_is :
          ((last.base + 2 ^ 32 - first.base) % 2 ^ 32 + length n.body) % 2 ^ 64
          ≡ last.base - first.base + length n.body
      len_is = omega (arith, below)

      blank :
          write block 0 (replicate (last.base - first.base + length n.body) 0xff)
          ≡ ok (replicate (last.base - first.base + length n.body) 0xff)
      blank = blank_block block (last.base - first.base + length n.body) hb'

      nothing_left :
          last.base - first.base + length n.body - length (slots ns first.base upgrade_rows) ≡ 0
      nothing_left = omega (arith, ends, below)

      rounds : length before + 1 + length mid + 1 - length before ≡ length upgrade_rows
      rounds = omega (arith, length-append mid (last ∷ []))
