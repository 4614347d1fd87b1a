-- ===== src/Examples/Text.antt =====
-- Examples of UTF-8, the writer and the order of devices.
use zhac_mono_core.Prelude.{ℕ, ◌≡◌, refl, true, some, List, [], ◌∷◌, arith, replicate}
use zhac_mono_core.Prelude.Text.{bytes}
use zhac_mono_core.Devlist.Next.{devlist_next}
use zhac_mono_core.Utf8.{utf8_seq_len, utf8_safe_copy, lead, continues, copy_from}
use zhac_mono_core.Utf8.Sequence.{IsSequence, utf8_seq_len-IsSequence}
use zhac_mono_core.Json.{Denotes}
use zhac_mono_core.JsonWriter.{JsonWriter, str}
use zhac_mono_core.JsonWriter.Append.{IsWriter, Appends}
use zhac_mono_core.JsonWriter.Meaning.{sanitized, str-Denotes}

-- "aé" cut to a field of two bytes keeps the first letter alone.
cut_copy : utf8_safe_copy 3 (some (b'a' ∷ 0xC3 ∷ 0xA9 ∷ [])) ≡ some (b'a' ∷ [])
unfolding utf8_safe_copy copy_from utf8_seq_len lead continues
cut_copy = refl

utf8_seq_len-IsSequence_example :
    IsSequence 4 (utf8_seq_len (0xC3 ∷ 0xA9 ∷ []) 4) (0xC3 ∷ 0xA9 ∷ [])
unfolding utf8_seq_len lead continues
utf8_seq_len-IsSequence_example = utf8_seq_len-IsSequence 0xC3 (0xA9 ∷ []) 4 (λ e. cc)

abbrev writer : JsonWriter
writer = record { buf = replicate 8 0; cap = 8; pos = 0; ok = true }

writer-IsWriter : IsWriter writer
writer-IsWriter = omega arith

str-Denotes_example :
    (text : List ℕ) × Appends 0 writer text (str writer (bytes "a\"b") 3)
    × Denotes text (sanitized (bytes "a\"b") 3)
str-Denotes_example = str-Denotes writer (bytes "a\"b") 3 writer-IsWriter

third : devlist_next (λ (n : ℕ). n) (λ n. true) (7 ∷ 3 ∷ 5 ∷ []) 3 ≡ some 2
unfolding devlist_next
third = refl
