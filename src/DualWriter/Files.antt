-- ===== src/DualWriter/Files.antt =====
-- The files before and after the two phases of a write.
use mctrader_data.Prelude.{
  String, false, ◌≡◌, refl, inl, inr, none, some, arith, str_eq, eq_iff, Bool-cases,
}
use mctrader_data.Prelude.Dict.{
  Dict, string_eq, lookup, insert, erase, lookup-insert, lookup-erase, lookup-insert_self,
  lookup-erase_self,
}
use mctrader_data.Prelude.Texts.{append-differs}
use mctrader_data.RetryQueue.{Bytes}
use mctrader_data.DualWriter.{tmp_of, replace_file}

tmp-differs : (p : String) → str_eq (tmp_of p) p ≡ false
unfolding tmp_of
tmp-differs p = append-differs p ".tmp_dw" (omega arith)

-- No temporary file is there, the path holds the data, and every other file is as it was.
pub record Written (path : String) (body : Bytes) (before after : Dict String Bytes) : Type 0 where
  pub no_tmp : lookup (tmp_of path) after ≡ none
  pub written : lookup path after ≡ some body
  pub others_kept :
      (f : String)
      → str_eq (tmp_of path) f ≡ false
      → str_eq path f ≡ false
      → lookup f after ≡ lookup f before

-- No temporary file is there, and every other file is as it was.
pub record Untouched (path : String) (before after : Dict String Bytes) : Type 0 where
  pub no_tmp : lookup (tmp_of path) after ≡ none
  pub all_kept : (f : String) → str_eq (tmp_of path) f ≡ false → lookup f after ≡ lookup f before

module _ (path : String) (body : Bytes) (files : Dict String Bytes) where
  moved :
      replace_file (tmp_of path) path (insert (tmp_of path) body files)
      ≡ insert path body (erase (tmp_of path) (insert (tmp_of path) body files))
  unfolding replace_file
  moved = rw (lookup-insert_self (tmp_of path) body files, replace_file) refl

  tmp-below : str_eq path (tmp_of path) ≡ false
  tmp-below = elim (Bool-cases (str_eq path (tmp_of path))) [
    | inr differs ↦ differs
    | inl same ↦
        absurd
          (ground (arith, tmp-differs path, eq_iff path (tmp_of path), eq_iff (tmp_of path) path))
  ]

  pub replace_file-Written :
      Written path body files (replace_file (tmp_of path) path (insert (tmp_of path) body files))
  replace_file-Written = rw moved (record {
    no_tmp =
        rw (lookup-insert, tmp-below)
          (lookup-erase_self (tmp_of path) (insert (tmp_of path) body files));
    written = lookup-insert_self path body (erase (tmp_of path) (insert (tmp_of path) body files));
    others_kept =
        λ f tmp same. rw (lookup-insert, same, lookup-erase, tmp, lookup-insert, tmp) refl;
  })

  pub erase_tmp-Untouched :
      Untouched path files (erase (tmp_of path) (insert (tmp_of path) body files))
  erase_tmp-Untouched = record {
    no_tmp = lookup-erase_self (tmp_of path) (insert (tmp_of path) body files);
    all_kept = λ f tmp. rw (lookup-erase, tmp, lookup-insert, tmp) refl;
  }

  pub erase-Untouched : Untouched path files (erase (tmp_of path) files)
  erase-Untouched = record {
    no_tmp = lookup-erase_self (tmp_of path) files;
    all_kept = λ f tmp. rw (lookup-erase, tmp) refl;
  }
