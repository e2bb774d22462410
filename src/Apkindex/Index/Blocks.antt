-- ===== src/Apkindex/Index/Blocks.antt =====
-- `ParseIndex` returns an entry for every block of lines, and each by the lines of its block alone.
use yoe.Common.{Result, ◌>>=◌, ok, ◌≡◌, ◌⊎◌, true, false, List, [], ◌∷◌, ◌++◌, Text}
use yoe.Apkindex.Entry.{Entry}
use yoe.Apkindex.Index.{IndexState, end_block, IndexError}
use yoe.Apkindex.Index.Fields.{has_field}
use yoe.Apkindex.Index.Open.{IsEntryOf}

-- The blocks that the empty lines set apart; `b` is what the first of them holds already.
unfoldable pub blocks_from : List Text → List Text → List (List Text)
blocks_from b [] = b ∷ []
blocks_from b ([] ∷ ls) = b ∷ blocks_from [] ls
blocks_from b ((c ∷ l) ∷ ls) = blocks_from (b ++ (c ∷ l) ∷ []) ls

-- The entries are those of the blocks with a field, in their order.
abbrev pub AllRead : List (List Text) → List Entry → Type 0
AllRead [] es = es ≡ []
AllRead (b ∷ bs) es =
    (has_field b ≡ false) × AllRead bs es
    ⊎ (e : Entry) × (rest : List Entry) × (has_field b ≡ true)
      × (es ≡ e ∷ rest)
      × IsEntryOf b e
      × AllRead bs rest

-- The end of the input ends the last block.
abbrev ended : Result IndexError IndexState → Result IndexError (List Entry)
ended r = do s ← r; t ← end_block s; ok t.entries

-- What the blocks from here on add to the entries.
abbrev Adds : List (List Text) → IndexState → List Entry → Type 0
Adds bs s out = (es : List Entry) × (out ≡ s.entries ++ es) × AllRead bs es
