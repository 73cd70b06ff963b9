-- ===== src/RxQueue/Portion.antt =====
-- A portion of the descriptors that the application holds: `count` of them, from the one at `skip` on.
use vnic.Prelude.{ℕ, ◌≡◌, ◌∙◌, ap, sym, List, ◌++◌, take, drop, take-append-drop}
use vnic.RxQueue.Ledger.{Entry, descs, descs-append}
use vnic.RxQueue.Return.{descs-take, descs-drop}

module _ {ℓ} {A : Type ℓ} (skip count : ℕ) (xs : List A) where
  abbrev pub portion : List A
  portion = take count (drop skip xs)

  abbrev pub rest : List A
  rest = take skip xs ++ drop count (drop skip xs)

  pub portion_whole : xs ≡ take skip xs ++ (portion ++ drop count (drop skip xs))
  portion_whole =
      sym (take-append-drop skip xs)
      ∙ ap (◌++◌ (take skip xs)) (sym (take-append-drop count (drop skip xs)))

module _ (skip count : ℕ) (es : List Entry) where
  pub descs-portion : portion skip count (descs es) ≡ descs (portion skip count es)
  descs-portion = ap (take count) (descs-drop skip es) ∙ descs-take count (drop skip es)

  pub descs-rest : rest skip count (descs es) ≡ descs (rest skip count es)
  descs-rest =
      ap (λ k. k ++ drop count (drop skip (descs es))) (descs-take skip es)
      ∙ ap (◌++◌ (descs (take skip es)))
          (ap (drop count) (descs-drop skip es) ∙ descs-drop count (drop skip es))
      ∙ sym (descs-append (take skip es) (drop count (drop skip es)))
