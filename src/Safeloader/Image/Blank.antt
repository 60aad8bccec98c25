-- ===== src/Safeloader/Image/Blank.antt =====
-- The factory image of tools/tplink-safeloader/tplink-safeloader.c up to the call of `put_partitions`:
-- the blank image, its size and the vendor information.
use safewrt.Common.{
  ℕ, ◌+◌, ◌-◌, ◌%◌, ◌^◌, ◌≤◌, ◌<◌, ◌≡◌, refl, ap, ◌∙◌, sym, Option, none, some, List, [], ◌∷◌, ◌++◌,
  Bytes, length, take, drop, total, length-append, drop-length, drop-append, drop-append_left,
  take-append, drop-replicate, replicate-append, replicate, length-replicate, arith,
}
use safewrt.Common.Outcome.{Outcome, ok, ◌>>=◌}
use safewrt.Common.Words.{be32, length-be32}
use safewrt.Common.Memory.{write, write_middle, write_next}
use safewrt.Safeloader.Layout.{ImagePartition, DeviceInfo, no_partition}
use safewrt.Safeloader.Pieces.{Malloc, put32}
use safewrt.Safeloader.Image.{
  image_size, put_vendor, put_md5, put_partitions, generate_factory_image,
}
use safewrt.Safeloader.Image.Partitions.{Named, parts_array, bodies}
use mathlib.Core.List.{append_assoc, append-nil}

image_size_lem :
    (ns : List Named) (tail : List ImagePartition) (len : ℕ)
    → len + total (bodies ns) < 2 ^ 64
    → image_size (parts_array ns (no_partition ∷ tail)) len ≡ ok (len + total (bodies ns))
unfolding image_size
image_size_lem [] tail len h = ap ok (omega arith)
image_size_lem (n ∷ ns) tail len h =
    let here : (len + length n.body) % 2 ^ 64 ≡ len + length n.body = omega arith in
    rw here (image_size_lem ns tail (len + length n.body) (omega arith) ∙ ap ok (omega arith))

-- The vendor information: its length, its bytes, and 0xff up to 0x1000 bytes; with none, 0xff.
abbrev pub vendor_block : Option Bytes → Bytes
vendor_block none = replicate 0x1000 0xff
vendor_block (some v) = be32 (length v) ++ (v ++ replicate (0xffc - length v) 0xff)

-- A vendor text fits the block that is kept for it.
abbrev pub VendorFits : Option Bytes → Type 0
VendorFits none = Unit
VendorFits (some v) = length v ≤ 0xffc

pub length-vendor_block : (v : Option Bytes) → VendorFits v → length (vendor_block v) ≡ 0x1000
unfolding be32
length-vendor_block none h = length-replicate {A = ℕ} 0x1000 0xff
length-vendor_block (some v) h = omega (
  arith,
  length-append v (replicate (0xffc - length v) 0xff),
  length-replicate {A = ℕ} (0xffc - length v) 0xff,
)

put_vendor_lem :
    (v : Option Bytes) (head rest : Bytes)
    → length head ≡ 0x14
    → VendorFits v
    → put_vendor v (head ++ (replicate 0x1000 0xff ++ rest)) ≡ ok (head ++ (vendor_block v ++ rest))
unfolding put_vendor put32 be32
put_vendor_lem none head rest hh hv = refl
put_vendor_lem (some v) head rest hh hv =
    rw
      (write_next head (replicate 0x1000 0xff ++ rest) (be32 (length v)) 0x14 (sym hh) (
        omega (
          arith,
          length-append (replicate 0x1000 0xff) rest,
          length-replicate {A = ℕ} 0x1000 0xff,
        )))
      (write_next (head ++ be32 (length v)) (replicate 0xffc 0xff ++ rest) v 0x18
          (omega (arith, length-append head (be32 (length v))))
          (omega
            (arith, length-append (replicate 0xffc 0xff) rest, length-replicate {A = ℕ} 0xffc 0xff))
        ∙ ap ok (rw vendor_rest (simp append_assoc)))
  where
    vendor_rest :
        drop (length v) (replicate 0xffc 0xff ++ rest) ≡ replicate (0xffc - length v) 0xff ++ rest
    vendor_rest =
        drop-append_left (length v) (replicate 0xffc 0xff) rest
          (omega (arith, length-replicate {A = ℕ} 0xffc 0xff))
        ∙ ap (λ (pad : Bytes). pad ++ rest)
            (drop-replicate {A = ℕ} (length v) 0xffc (0xffc - length v) 0xff refl)

blank_image :
    (k : ℕ)
    → ◌≡◌ {A = Bytes} (replicate (0x1814 + k) 0xff) (
        replicate 4 0xff
        ++ (replicate 16 0xff ++ (replicate 0x1000 0xff ++ replicate (0x800 + k) 0xff)))
blank_image k =
    sym (replicate-append {A = ℕ} 4 (0x1810 + k) (0x1814 + k) 0xff (omega arith))
    ∙ ap (λ (r : Bytes). replicate 4 0xff ++ r)
        (sym (replicate-append {A = ℕ} 16 (0x1800 + k) (0x1810 + k) 0xff (omega arith)))
    ∙ ap (λ (r : Bytes). replicate 4 0xff ++ (replicate 16 0xff ++ r))
        (sym (replicate-append {A = ℕ} 0x1000 (0x800 + k) (0x1800 + k) 0xff (omega arith)))

-- The blank image with its size.
sized_image :
    (block : Bytes) (k : ℕ) (follow : Bytes → Outcome Bytes)
    → length block ≡ 0x1814 + k
    → (write block 0 (replicate (0x1814 + k) 0xff) >>= λ blank.
        put32 blank 0 (0x1814 + k) >>= follow)
      ≡ follow (
          (be32 (0x1814 + k) ++ replicate 16 0xff)
          ++ (replicate 0x1000 0xff ++ replicate (0x800 + k) 0xff))
unfolding put32 be32
sized_image block k follow hb = rw (
  blanked,
  write_middle [] (replicate 4 0xff)
      (replicate 16 0xff ++ (replicate 0x1000 0xff ++ replicate (0x800 + k) 0xff))
      (be32 (0x1814 + k)) 0 refl refl,
)
  where
    blanked :
        write block 0 (replicate (0x1814 + k) 0xff)
        ≡ ok (
            replicate 4 0xff
            ++ (replicate 16 0xff ++ (replicate 0x1000 0xff ++ replicate (0x800 + k) 0xff)))
    blanked =
        write_next [] block (replicate (0x1814 + k) 0xff) 0 refl
          (omega (arith, length-replicate {A = ℕ} (0x1814 + k) 0xff))
        ∙ ap ok (
            rw
              (
                drop-length (length (replicate {A = ℕ} (0x1814 + k) 0xff)) block
                    (omega (arith, length-replicate {A = ℕ} (0x1814 + k) 0xff)),
                append-nil,
              )
              (blank_image k))

-- The head of the image: its size, and room for the checksum.
abbrev pub head_of : ℕ → Bytes
head_of k = be32 (0x1814 + k) ++ replicate 16 0xff

length-head_of :
    (k : ℕ) (v : Option Bytes)
    → VendorFits v
    → (length (head_of k) ≡ 0x14) × (0x1014 ≡ length (head_of k ++ vendor_block v))
length-head_of k v hv = (
  omega (arith, length-append (be32 (0x1814 + k)) (replicate 16 0xff), length-be32 (0x1814 + k)),
  omega (
    arith,
    length-append (head_of k) (vendor_block v),
    length-append (be32 (0x1814 + k)) (replicate 16 0xff),
    length-be32 (0x1814 + k),
    length-vendor_block v hv,
  ),
)

-- What comes before `put_partitions`, and what follows it.
pub generate_factory_image-put_partitions :
    (md5 : Bytes → Bytes) (malloc : Malloc) (info : DeviceInfo) (ns : List Named)
    (tail : List ImagePartition) (block : Bytes)
    → VendorFits info.vendor
    → 0x1814 + total (bodies ns) < 2 ^ 32
    → malloc (0x1814 + total (bodies ns)) ≡ some block
    → length block ≡ 0x1814 + total (bodies ns)
    → generate_factory_image md5 malloc info (parts_array ns (no_partition ∷ tail)) ≡ (
        put_partitions
          (replicate (0x800 + total (bodies ns)) 0xff)
          info.partitions
          (parts_array ns (no_partition ∷ tail))
        >>= λ rest.
            put_md5 md5
              ((head_of (total (bodies ns)) ++ vendor_block info.vendor) ++ rest)
              (0x1814 + total (bodies ns) - 0x14))
unfolding generate_factory_image
generate_factory_image-put_partitions md5 malloc info ns tail block hv hw hm hb =
    rw (image_size_lem ns tail 0x1814 (omega arith), hm)
      (sized_image block (total (bodies ns))
          (λ sized. put_vendor info.vendor sized >>= λ vendored.
            put_partitions (drop 0x1014 vendored) info.partitions
              (parts_array ns (no_partition ∷ tail))
            >>= λ rest.
                put_md5 md5 (take 0x1014 vendored ++ rest) (0x1814 + total (bodies ns) - 0x14))
          hb
        ∙ rw (put_vendor_lem info.vendor head space lengths.0 hv, behind, front) refl)
  where
    head : Bytes
    head = head_of (total (bodies ns))

    space : Bytes
    space = replicate (0x800 + total (bodies ns)) 0xff

    lengths : (length head ≡ 0x14) × (0x1014 ≡ length (head ++ vendor_block info.vendor))
    lengths = length-head_of (total (bodies ns)) info.vendor hv

    behind : drop 0x1014 (head ++ (vendor_block info.vendor ++ space)) ≡ space
    behind =
        rw (← append_assoc head (vendor_block info.vendor) space)
          (drop-append 0x1014 (head ++ vendor_block info.vendor) space lengths.1)

    front :
        take 0x1014 (head ++ (vendor_block info.vendor ++ space)) ≡ head ++ vendor_block info.vendor
    front =
        rw (← append_assoc head (vendor_block info.vendor) space)
          (take-append 0x1014 (head ++ vendor_block info.vendor) space lengths.1)
