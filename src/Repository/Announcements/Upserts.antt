-- ===== src/Repository/Announcements/Upserts.antt =====
-- What an upsert of internal/repository/announcement.go leaves under each key.
use jd_shop_server.Common.{
  ℕ, ◌≡◌, refl, ap, ◌∙◌, Bool, true, false, Option, none, some, List, ◌∷◌, if◌then◌else◌, find,
  updated, find-update_where, find_passes, is_some, arith, Bool-cases, Option-cases, inl, inr,
  ==_refl,
}
use jd_shop_server.Model.Announcements.{Receipt}
use jd_shop_server.Repository.Announcements.Receipts.{is_receipt, upsert}

find-cons_other {ℓ} :
    {A : Type ℓ} (p : A → Bool) (x : A) (rows : List A)
    → p x ≡ false
    → find p (x ∷ rows) ≡ find p rows
unfolding find
find-cons_other p x rows h = rw h refl

-- The row of a key after an upsert.
abbrev pub merged : Receipt → (Receipt → Receipt) → Option Receipt → Receipt
merged new f none = new
merged new f (some r) = f r

module _ (new : Receipt) (f : Receipt → Receipt) (rows : List Receipt)
    (same_key : (i u k : ℕ) (r : Receipt) → is_receipt i u k (f r) ≡ is_receipt i u k r) where
  abbrev pub own : Receipt → Bool
  own = is_receipt new.announcement_id new.user_id new.revision

  pub find-upsert : find own (upsert new f rows) ≡ some (merged new f (find own rows))
  unfolding upsert find
  find-upsert = elim (Option-cases (find own rows)) [
    | inl absent ↦
        rw absent
          (ground (arith, ==_refl new.announcement_id, ==_refl new.user_id, ==_refl new.revision))
    | inr (r, there) ↦
        let moved = find-update_where own own f rows (same_key _ _ _) in
        let hit = find_passes own rows there in
        rw there (moved ∙ ap (updated own f) there ∙ ap (λ b. some (if b then f r else r)) hit)
  ]

  pub find-upsert_other :
      (i u k : ℕ)
      → is_receipt i u k new ≡ false
      → find (is_receipt i u k) (upsert new f rows) ≡ find (is_receipt i u k) rows
  unfolding upsert
  find-upsert_other i u k other = elim (Bool-cases (is_some (find own rows))) [
    | inl there ↦ rw there (
        find-update_where (is_receipt i u k) own f rows (same_key i u k)
        ∙ untouched (find (is_receipt i u k) rows) (λ r found. find_passes _ rows found))
    | inr absent ↦ rw absent (find-cons_other (is_receipt i u k) new rows other)
  ]
    where
      untouched :
          (o : Option Receipt)
          → ((r : Receipt) → o ≡ some r → is_receipt i u k r ≡ true)
          → updated own f o ≡ o
      untouched none passes = refl
      untouched (some r) passes =
          let key = passes r refl in let off : own r ≡ false = ground arith in rw off refl
