-- ===== src/Rpc/Tlv/Entries.antt =====
-- rpc/solana.go: getExtensionData on any bytes. Data is a list of entries and a tail without a whole entry.
use utils_go.Base.{
  ℕ, zero, suc, ◌/◌, ◌%◌, ◌^◌, ◌≤◌, ◌<◌, ◌≡◌, refl, sym, ap, ◌∙◌, inl, inr, ◌⊎◌, true, Option, none,
  some, List, [], ◌∷◌, ◌++◌, arith, nat_beq, leb, length, take, drop, All, length-append,
  take-append, drop-append, drop-all, take-drop, length-take, length-drop, Bool-cases, le→leb, ◌&&◌,
  if◌then◌else◌,
}
use utils_go.Base.Find.{find_first}
use utils_go.Rpc.Tlv.{uint16, scan_entries, get_extension_data}
use mathlib.Core.Option

pub record Entry : Type 0 where
  pub entry_type : ℕ
  pub value : List ℕ

abbrev pub IsEntry : Entry → Type 0
IsEntry e = (e.entry_type < 2 ^ 16) × (length e.value < 2 ^ 16)

-- The type and the length in two bytes each, the low one first.
unfoldable pub header : ℕ → ℕ → List ℕ → List ℕ
header t l more = (t % 256) ∷ (t / 256) ∷ (l % 256) ∷ (l / 256) ∷ more

unfoldable pub encode : List Entry → List ℕ → List ℕ
unfolding header
encode [] tail = tail
encode (e ∷ entries) tail = header e.entry_type (length e.value) (e.value ++ encode entries tail)

-- Fewer than four bytes, or a length that the rest does not hold.
unfoldable pub IsCut : List ℕ → Type 0
unfolding uint16
IsCut (a ∷ b ∷ c ∷ d ∷ more) = length more < uint16 c d
IsCut _ = Unit {0}

unfoldable pub entry_of_type : ℕ → List Entry → Option (List ℕ)
unfolding find_first
entry_of_type t entries =
    Option.map (λ e. e.value) (find_first (λ e. nat_beq e.entry_type t) entries)

uint16-header : (n : ℕ) → uint16 (n % 256) (n / 256) ≡ n
unfolding uint16
uint16-header n = omega arith

scan_entries-nil : (f t : ℕ) → scan_entries f t [] ≡ none
unfolding scan_entries
scan_entries-nil zero t = refl
scan_entries-nil (suc f) t = refl

-- One round of the loop.
scan_entries-header :
    (f t a b c d : ℕ) (more : List ℕ)
    → scan_entries (suc f) t (a ∷ b ∷ c ∷ d ∷ more) ≡ (
        if nat_beq (uint16 a b) t && leb (uint16 c d) (length more)
        then some (take (uint16 c d) more)
        else scan_entries f t (drop (uint16 c d) more))
unfolding scan_entries
scan_entries-header f t a b c d more = refl

scan_entries-IsCut : (f t : ℕ) (tail : List ℕ) → IsCut tail → scan_entries f t tail ≡ none
unfolding scan_entries IsCut
scan_entries-IsCut zero t tail h = refl
scan_entries-IsCut (suc f) t [] h = refl
scan_entries-IsCut (suc f) t (a ∷ []) h = refl
scan_entries-IsCut (suc f) t (a ∷ b ∷ []) h = refl
scan_entries-IsCut (suc f) t (a ∷ b ∷ c ∷ []) h = refl
scan_entries-IsCut (suc f) t (a ∷ b ∷ c ∷ d ∷ more) h =
    ground (arith, drop-all (uint16 c d) more (omega arith), scan_entries-nil f t)

entry_of_type-cons :
    (t : ℕ) (e : Entry) (entries : List Entry)
    → entry_of_type t (e ∷ entries)
      ≡ (if nat_beq e.entry_type t then some e.value else entry_of_type t entries)
unfolding entry_of_type
entry_of_type-cons t e entries = elim (Bool-cases (nat_beq e.entry_type t)) [
  | inl same ↦ rw same refl
  | inr other ↦ rw other refl
]

length-encode :
    (e : Entry) (entries : List Entry) (tail : List ℕ)
    → length (encode entries tail) < length (encode (e ∷ entries) tail)
unfolding encode
length-encode e entries tail = omega (arith, length-append {0} e.value (encode entries tail))

-- The loop on an entry and the rest of the data.
scan_entries-entry :
    (f t : ℕ) (e : Entry) (entries : List Entry) (tail : List ℕ)
    → scan_entries (suc f) t (encode (e ∷ entries) tail)
      ≡ (if nat_beq e.entry_type t then some e.value else scan_entries f t (encode entries tail))
unfolding encode
scan_entries-entry f t e entries tail =
    let rest = encode entries tail in
    let fits : leb (length e.value) (length (e.value ++ rest)) ≡ true =
      le→leb _ _ (omega (arith, length-append {0} e.value rest)) in
    scan_entries-header f t _ _ _ _ (e.value ++ rest)
    ∙ rw
        (
          uint16-header e.entry_type,
          uint16-header (length e.value),
          take-append e.value rest,
          drop-append e.value rest,
          fits,
        )
        (ground arith)

scan_entries-encode :
    (f t : ℕ) (entries : List Entry) (tail : List ℕ)
    → IsCut tail
    → length (encode entries tail) < f
    → scan_entries f t (encode entries tail) ≡ entry_of_type t entries
scan_entries-encode f t [] tail cut h =
    unfold encode entry_of_type in scan_entries-IsCut f t tail cut
scan_entries-encode zero t (e ∷ entries) tail cut h = absurd (omega arith)
scan_entries-encode (suc f) t (e ∷ entries) tail cut h =
    let ih =
      scan_entries-encode f t entries tail cut (omega (arith, h, length-encode e entries tail)) in
    rw (scan_entries-entry, ih, entry_of_type-cons)

le_or_lt : (a b : ℕ) → (a ≤ b) ⊎ (b < a)
le_or_lt a b = omega arith

abbrev IsByte : ℕ → Type 0
IsByte b = b < 256

All-drop : (n : ℕ) (xs : List ℕ) → All IsByte xs → All IsByte (drop n xs)
All-drop zero xs h = h
All-drop (suc n) [] h = tt
All-drop (suc n) (x ∷ xs) h = All-drop n xs h.1

-- A list of entries and a tail that make up the data.
pub record Split (bytes : List ℕ) : Type 0 where
  pub entries : List Entry
  pub tail : List ℕ
  pub makes : bytes ≡ encode entries tail
  pub are_entries : All IsEntry entries
  pub is_cut : IsCut tail

uint16_bytes :
    (low high : ℕ)
    → IsByte low
    → IsByte high
    → (uint16 low high % 256 ≡ low) × (uint16 low high / 256 ≡ high)
unfolding uint16
uint16_bytes low high hl hh = omega arith

header-uint16 :
    (a b c d : ℕ) (more : List ℕ)
    → All IsByte (a ∷ b ∷ c ∷ d ∷ [])
    → header (uint16 a b) (uint16 c d) more ≡ a ∷ b ∷ c ∷ d ∷ more
unfolding header
header-uint16 a b c d more (ha, (hb, (hc, (hd, _)))) =
    let (a_back, b_back) = uint16_bytes a b ha hb in
    let (c_back, d_back) = uint16_bytes c d hc hd in rw (a_back, b_back, c_back, d_back) refl

encode-entry :
    (e : Entry) (entries : List Entry) (tail : List ℕ)
    → encode (e ∷ entries) tail
      ≡ header e.entry_type (length e.value) (e.value ++ encode entries tail)
unfolding encode
encode-entry e entries tail = refl

Split-entry :
    (a b c d : ℕ) (more : List ℕ)
    → All IsByte (a ∷ b ∷ c ∷ d ∷ [])
    → uint16 c d ≤ length more
    → Split (drop (uint16 c d) more)
    → Split (a ∷ b ∷ c ∷ d ∷ more)
unfolding uint16
Split-entry a b c d more (ha, (hb, (hc, (hd, last)))) fits s =
    let l = uint16 c d in
    record {
      entries = record { entry_type = uint16 a b; value = take l more } ∷ s.entries;
      tail = s.tail;
      makes = sym (
          encode-entry (record { entry_type = uint16 a b; value = take l more }) s.entries s.tail
          ∙ rw (length-take l more fits, ← s.makes, take-drop l more)
              (header-uint16 a b c d more (ha, (hb, (hc, (hd, last))))));
      are_entries = ((omega arith, omega (arith, length-take l more fits)), s.are_entries);
      is_cut = s.is_cut;
    }

Split-tail : (tail : List ℕ) → IsCut tail → Split tail
Split-tail tail cut = record {
  entries = [];
  tail = tail;
  makes = unfold encode in refl;
  are_entries = tt;
  is_cut = cut;
}

-- Any bytes are split, by rounds of the loop.
split : (f : ℕ) (bytes : List ℕ) → length bytes < f → All IsByte bytes → Split bytes
split zero bytes h all = absurd (omega arith)
split (suc f) [] h all = Split-tail [] (unfold IsCut in tt)
split (suc f) (a ∷ []) h all = Split-tail (a ∷ []) (unfold IsCut in tt)
split (suc f) (a ∷ b ∷ []) h all = Split-tail (a ∷ b ∷ []) (unfold IsCut in tt)
split (suc f) (a ∷ b ∷ c ∷ []) h all = Split-tail (a ∷ b ∷ c ∷ []) (unfold IsCut in tt)
split (suc f) (a ∷ b ∷ c ∷ d ∷ more) h (ha, (hb, (hc, (hd, all)))) =
    let rest =
      split f (drop (uint16 c d) more) (omega (arith, length-drop {0} (uint16 c d) more))
        (All-drop (uint16 c d) more all) in
    elim (le_or_lt (uint16 c d) (length more)) [
      | inl fits ↦ Split-entry a b c d more (ha, (hb, (hc, (hd, tt)))) fits rest
      | inr long ↦ Split-tail (a ∷ b ∷ c ∷ d ∷ more) (unfold IsCut in long)
    ]

-- getExtensionData finds the value of the first entry of the type in the entries that make up the
-- data, and nothing where no entry has the type; a tail that holds no whole entry is not looked at.
pub get_extension_data-encode :
    (t : ℕ) (entries : List Entry) (tail : List ℕ)
    → IsCut tail
    → get_extension_data t (encode entries tail) ≡ entry_of_type t entries
unfolding get_extension_data
get_extension_data-encode t entries tail cut =
    scan_entries-encode (suc (length (encode entries tail))) t entries tail cut (omega arith)

-- Any bytes are entries followed by a tail without a whole entry, and getExtensionData finds the value
-- of the first of the entries with the type, or nothing where none has it.
pub get_extension_data_lem :
    (bytes : List ℕ)
    → All IsByte bytes
    → (entries : List Entry) × (tail : List ℕ) × (bytes ≡ encode entries tail)
      × All IsEntry entries
      × IsCut tail
      × ((t : ℕ) → get_extension_data t bytes ≡ entry_of_type t entries)
get_extension_data_lem bytes all =
    let s = split (suc (length bytes)) bytes (omega arith) all in
    (
      s.entries,
      s.tail,
      s.makes,
      s.are_entries,
      s.is_cut,
      λ t.
          ap (get_extension_data t) s.makes ∙ get_extension_data-encode t s.entries s.tail s.is_cut,
    )
