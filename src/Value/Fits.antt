-- ===== src/Value/Fits.antt =====
-- The values that Rust can hold and that the decoder's limits admit.
use memory_first_store.Prelude.{ℕ, ◌^◌, ◌<◌, ◌≤◌, ◌≡◌, true, List, length, All}
use memory_first_store.Prelude.Int.{IsI64}
use memory_first_store.Bytes.Utf8.{is_utf8}
use memory_first_store.Bytes.Ordered.{IsAscending}
use memory_first_store.Value.{
  Field, SortedSetEntry, StreamEntry, MfsValue, max_collection_items, max_blob_bytes,
}
use memory_first_store.Value.Decode.{is_finite}

abbrev pub FitsBlob : List ℕ → Type 0
FitsBlob bs = length bs ≤ max_blob_bytes

abbrev pub FitsField : Field → Type 0
FitsField e = FitsBlob e.0 × FitsBlob e.1

abbrev pub FitsScored : SortedSetEntry → Type 0
FitsScored e = (e.score < 2 ^ 64) × (is_finite e.score ≡ true) × FitsBlob e.member

-- As many items as the limit admits, each within its own limits.
abbrev pub FitsItems {ℓ} : {A : Type ℓ} → (A → Type 0) → List A → Type 0
FitsItems P xs = (length xs ≤ max_collection_items) × All P xs

abbrev pub FitsFields : List Field → Type 0
FitsFields m = FitsItems FitsField m × IsAscending (λ e. e.0) m

abbrev pub FitsStreamEntry : StreamEntry → Type 0
FitsStreamEntry e = (e.id.millis < 2 ^ 64) × (e.id.sequence < 2 ^ 64) × FitsFields e.fields

abbrev pub Fits : MfsValue → Type 0
Fits (MfsValue.bytes bs) = FitsBlob bs
Fits (MfsValue.string bs) = FitsBlob bs × (is_utf8 bs ≡ true)
Fits (MfsValue.integer i) = IsI64 i
Fits (MfsValue.list xs) = FitsItems FitsBlob xs
Fits (MfsValue.hash m) = FitsFields m
Fits (MfsValue.set xs) = FitsItems FitsBlob xs × IsAscending (λ e. e) xs
Fits (MfsValue.sorted_set xs) = FitsItems FitsScored xs
Fits (MfsValue.json bs) = FitsBlob bs
Fits (MfsValue.stream xs) = FitsItems FitsStreamEntry xs
Fits MfsValue.null = Unit
