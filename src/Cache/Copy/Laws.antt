-- ===== src/Cache/Copy/Laws.antt =====
-- The loop of `copy_cache_object`: what it does to the chunks of the destination.
use s3xc.Prelude.{
  leb, ltb, ◌&&◌, ℕ, zero, suc, ◌+◌, ◌≡◌, ◌≢◌, refl, sym, ◌∙◌, true, false, inl, inr, Text, text_eq,
  text_eq_iff, arith, ◌==◌, ==_iff, Bool-cases, if◌then◌else◌,
}
use s3xc.Io.{Result, ok}
use s3xc.External.{Env, World}
use s3xc.External.Works.{EnvWorks}
use s3xc.Cache.Keys.{chunk_key, chunk_key_inj}
use s3xc.Cache.Metadata.Laws.{objects, chunks}
use s3xc.Cache.Storage.Laws.{chunk_file, same_file, same_file_ne}
use s3xc.Cache.Coordinator.{CacheCoordinator}
use s3xc.Cache.Copy.{copy_chunks}
use s3xc.Cache.Copy.Round.{
  HasChunk, copied_entry, copied_file, keep, keep_entry, keep_file, copy_round,
}

module _ (env : Env) (works : EnvWorks env) (c : CacheCoordinator) (src dest : Text) where
  clash : false ≡ true → ⊥
  clash e = cc

  other_key : (i n : ℕ) → n ≢ i → text_eq (chunk_key dest n) (chunk_key dest i) ≡ false
  other_key i n h = elim (Bool-cases (text_eq (chunk_key dest n) (chunk_key dest i))) [
    | inl same ↦ absurd (h (chunk_key_inj dest dest n i ((text_eq_iff _ _).0 same)).1)
    | inr other ↦ other
  ]

  -- Of the chunks other than the first, the rest of the rounds copies those that all copy.
  same_range :
      (idx i rounds : ℕ)
      → i ≢ idx
      → (leb (idx + 1) i && ltb i (idx + 1 + rounds)) ≡ (leb idx i && ltb i (idx + suc rounds))
  same_range idx i rounds ne = ground arith

  -- The chunks from `idx` on are copied, `rounds` of them, and nothing else has changed.
  pub record Copies (rounds idx : ℕ) (w : World env)
      (has : (i : ℕ) → HasChunk env works c src dest w i) (r : Result (Unit {0}) × World env)
      : Type 0 where
    pub after : World env
    pub ends : r ≡ (ok tt, after)
    pub entries :
        (i : ℕ)
        → chunks env works after.db (chunk_key dest i) ≡ (
            if leb idx i && ltb i (idx + rounds)
            then copied_entry env works c src dest
                (has i)
                (chunks env works w.db (chunk_key dest i))
            else chunks env works w.db (chunk_key dest i))
    pub files :
        (i : ℕ)
        → chunk_file env works c.storage after.disk dest i ≡ (
            if leb idx i && ltb i (idx + rounds)
            then copied_file env works c src dest
                (has i)
                (chunk_file env works c.storage w.disk dest i)
            else chunk_file env works c.storage w.disk dest i)
    pub other_entries :
        (j : Text)
        → ((i : ℕ) → text_eq (chunk_key dest i) j ≡ false)
        → chunks env works after.db j ≡ chunks env works w.db j
    pub other_files :
        (j : Text) (n : ℕ)
        → ((i : ℕ) → same_file env works c.storage dest i j n ≡ false)
        → chunk_file env works c.storage after.disk j n ≡ chunk_file env works c.storage w.disk j n
    pub objects_lem : (j : Text) → objects env works after.db j ≡ objects env works w.db j
    pub remote_lem : after.remote ≡ w.remote

  module _ (keys : (n i : ℕ) → text_eq (chunk_key dest n) (chunk_key src i) ≡ false)
      (apart : (n i : ℕ) → same_file env works c.storage dest n src i ≡ false) where
    pub copy_chunks-Copies :
        (rounds idx : ℕ) (w : World env) (has : (i : ℕ) → HasChunk env works c src dest w i)
        → Copies rounds idx w has (copy_chunks env c src dest rounds idx w)
    unfolding copy_chunks
    copy_chunks-Copies zero idx w has =
        let none_asked : (i : ℕ) → (leb idx i && ltb i (idx + 0)) ≡ false = λ i. ground arith in
        record {
          after = w;
          ends = refl;
          entries = λ i. rw (none_asked i) refl;
          files = λ i. rw (none_asked i) refl;
          other_entries = λ j h. refl;
          other_files = λ j n h. refl;
          objects_lem = λ j. refl;
          remote_lem = refl;
        }
    copy_chunks-Copies (suc rounds) idx w has =
        let (w', one, step) = copy_round env works c src dest idx rounds w (has idx) in
        let p : (i : ℕ)
            → chunks env works w'.db (chunk_key src i) ≡ chunks env works w.db (chunk_key src i) =
          λ i. one.other_entries (chunk_key src i) (keys idx i) in
        let q : (i : ℕ)
            → chunk_file env works c.storage w'.disk src i
              ≡ chunk_file env works c.storage w.disk src i =
          λ i. one.other_files src i (apart idx i) in
        let rest =
          copy_chunks-Copies rounds (idx + 1) w'
            (λ i. keep env works c src dest {w = w} {w' = w'} (has i) (p i) (q i)) in
        record {
          after = rest.after;
          ends = step ∙ rest.ends;
          entries = λ i. elim (Bool-cases (i == idx)) [
            | inl same ↦
                let at : i ≡ idx = (==_iff i idx).0 same in
                let now : (leb idx i && ltb i (idx + suc rounds)) ≡ true = ground arith in
                let later : (leb (idx + 1) i && ltb i (idx + 1 + rounds)) ≡ false = ground arith in
                rest.entries i ∙ rw (later, now, at) one.entry
            | inr other ↦
                let ne = λ (e : idx ≡ i). clash (sym other ∙ (==_iff i idx).1 (sym e)) in
                let moved = one.other_entries (chunk_key dest i) (other_key i idx ne) in
                rest.entries i
                ∙ rw
                    (
                      same_range idx i rounds (λ e. ne (sym e)),
                      moved,
                      keep_entry env works c src dest w' (has i) (p i) (q i),
                    )
                    refl
          ];
          files = λ i. elim (Bool-cases (i == idx)) [
            | inl same ↦
                let at : i ≡ idx = (==_iff i idx).0 same in
                let now : (leb idx i && ltb i (idx + suc rounds)) ≡ true = ground arith in
                let later : (leb (idx + 1) i && ltb i (idx + 1 + rounds)) ≡ false = ground arith in
                rest.files i ∙ rw (later, now, at) one.file
            | inr other ↦
                let ne = λ (e : idx ≡ i). clash (sym other ∙ (==_iff i idx).1 (sym e)) in
                let moved =
                  one.other_files dest i (same_file_ne env works c.storage dest idx i ne) in
                rest.files i
                ∙ rw
                    (
                      same_range idx i rounds (λ e. ne (sym e)),
                      moved,
                      keep_file env works c src dest w' (has i) (p i) (q i),
                    )
                    refl
          ];
          other_entries = λ j h. rest.other_entries j h ∙ one.other_entries j (h idx);
          other_files = λ j n h. rest.other_files j n h ∙ one.other_files j n (h idx);
          objects_lem = λ j. rest.objects_lem j ∙ one.objects_lem j;
          remote_lem = rest.remote_lem ∙ one.remote_lem;
        }
