-- ===== src/Validation/Normalized.antt =====
-- The normal forms of the values.
use customer_data_foundation.Prelude.{◌≡◌, ap, sym, true, ◌∙◌}
use customer_data_foundation.Text.{Text, Unicode, split, join}
use customer_data_foundation.Text.Words.{split-strip, split-join, split_words}
use customer_data_foundation.Validation.Fields.{normalize_text}

-- If a blank is white space, normalizing a name twice is normalizing it once, and the words of a
-- normal form are the words of the text.
pub normalize_text-idempotent :
    (u : Unicode) (t : Text)
    → u.is_space b' ' ≡ true
    → (normalize_text u (normalize_text u t) ≡ normalize_text u t)
      × (split u (normalize_text u t) ≡ split u t)
normalize_text-idempotent u t blank = (normalize_again, words)
  where
    normal : (x : Text) → normalize_text u x ≡ join (split u x)
    normal x = unfold normalize_text in ap join (split-strip u x)

    words : split u (normalize_text u t) ≡ split u t
    words = ap (split u) (normal t) ∙ split-join u (split u t) blank (split_words u t)

    normalize_again : normalize_text u (normalize_text u t) ≡ normalize_text u t
    normalize_again = normal (normalize_text u t) ∙ ap join words ∙ sym (normal t)
