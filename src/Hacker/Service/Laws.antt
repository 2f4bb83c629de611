-- ===== src/Hacker/Service/Laws.antt =====
-- `fetchFillerCandidates` of hacker.service.ts: which menu pages it reads.
use gusto_backend.Common.{
  ℕ, zero, suc, ◌+◌, ◌≤◌, ◌<◌, ◌≢◌, true, false, Option, List, [], ◌∷◌, ◌++◌, ◌≡◌, refl, sym, ap,
  subst, ◌∙◌, arith, length, Bool-cases, leb, leb→le, leb-gt, if◌then◌else◌, inl, inr, ◌⊎◌,
}
use mathlib.Core.List.{append-nil, append_assoc}
use gusto_backend.Hacker.Types.{FillerCandidate}
use gusto_backend.Hacker.Mapping.{RawMenu, map_menu_response_to_filler_candidates}
use gusto_backend.Hacker.Service.{
  Reply, failed, refused, success, fetch_pages, fetch_filler_candidates,
  min_filler_candidates_target,
}

-- The candidates of a page; none where the call failed.
abbrev pub page_items : Reply (Option RawMenu) → List FillerCandidate
page_items failed = []
page_items refused = []
page_items (success raw) = map_menu_response_to_filler_candidates raw

-- The candidates of `k` pages from `page` on.
abbrev pub pages_from : (ℕ → Reply (Option RawMenu)) → (k page : ℕ) → List FillerCandidate
pages_from menu zero page = []
pages_from menu (suc k) page = page_items (menu page) ++ pages_from menu k (page + 1)

-- Why the loop stopped behind `k` of the pages allowed.
abbrev Stopped : (ℕ → Reply (Option RawMenu)) → (pages page k : ℕ) → List FillerCandidate → Type 0
Stopped menu pages page k result =
    (k ≡ pages)
    ⊎ ((min_filler_candidates_target ≤ length result) ⊎ (page_items (menu (page + k)) ≡ []))

-- The loop did not stop before: each of the `k` pages had candidates, and before each there were too
-- few.
abbrev pub WentOn : (ℕ → Reply (Option RawMenu)) → List FillerCandidate → (k page : ℕ) → Type 0
WentOn menu before zero page = Unit
WentOn menu before (suc k) page =
    (length before < 60)
    × (page_items (menu page) ≢ [])
    × WentOn menu (before ++ page_items (menu page)) k (page + 1)

-- What the loop returns: the candidates so far and those of `k` pages more.
abbrev Fetched : (ℕ → Reply (Option RawMenu)) → (pages page : ℕ) → List FillerCandidate → Type 0
Fetched menu pages page candidates =
    (k : ℕ) × (k ≤ pages)
    × (fetch_pages menu pages page candidates ≡ candidates ++ pages_from menu k page)
    × Stopped menu pages page k (fetch_pages menu pages page candidates)
    × WentOn menu candidates k page

module _ (menu : ℕ → Reply (Option RawMenu)) where
  ends_here :
      (pages page : ℕ) (candidates : List FillerCandidate)
      → page_items (menu page) ≡ []
      → fetch_pages menu (suc pages) page candidates ≡ candidates
      → Fetched menu (suc pages) page candidates
  ends_here pages page candidates e same = (
    0,
    omega arith,
    same ∙ sym (append-nil candidates),
    inr (inr (subst (λ p. page_items (menu p) ≡ []) (omega arith) e)),
    tt,
  )

  page_items_eq :
      (page : ℕ) (raw : Option RawMenu) (items : List FillerCandidate)
      → menu page ≡ success raw
      → map_menu_response_to_filler_candidates raw ≡ items
      → page_items (menu page) ≡ items
  page_items_eq page raw items e f = ap page_items e ∙ f

  -- One turn of the loop at a page with candidates.
  turn :
      (pages page : ℕ) (candidates : List FillerCandidate) (raw : Option RawMenu)
      (item : FillerCandidate) (items : List FillerCandidate)
      → menu page ≡ success raw
      → map_menu_response_to_filler_candidates raw ≡ item ∷ items
      → fetch_pages menu (suc pages) page candidates ≡ (
          if leb 60 (length (candidates ++ item ∷ items))
          then candidates ++ item ∷ items
          else fetch_pages menu pages (page + 1) (candidates ++ item ∷ items))
  unfolding fetch_pages
  turn pages page candidates raw item items e f = rw (fetch_pages, e, f) (ground arith)

  -- A page with candidates: the loop stops behind it, or goes on with the next.
  goes_on :
      (pages page : ℕ) (candidates : List FillerCandidate) (raw : Option RawMenu)
      (item : FillerCandidate) (items : List FillerCandidate)
      → menu page ≡ success raw
      → map_menu_response_to_filler_candidates raw ≡ item ∷ items
      → length candidates < 60
      → (length (candidates ++ item ∷ items) < 60
          → Fetched menu pages (page + 1) (candidates ++ item ∷ items))
      → Fetched menu (suc pages) page candidates
  goes_on pages page candidates raw item items e f few rest =
      elim (Bool-cases (leb 60 (length (candidates ++ item ∷ items)))) [
        | inl g ↦ (
          1,
          omega arith,
          here g ∙ rw (paged, append-nil (item ∷ items)) refl,
          inr (inl (subst (λ t. 60 ≤ length t) (sym (here g)) (leb→le 60 _ g))),
          (few, nonempty, tt),
        )
        | inr g ↦
            let (k, k≤, same, why, went) = rest (leb-gt 60 _ g) in
            (
              suc k,
              omega arith,
              on g
                  ∙ same
                  ∙ rw
                      (paged, append_assoc candidates (item ∷ items) (pages_from menu k (page + 1)))
                      refl,
              later k g why,
              (few, nonempty, rw paged went),
            )
      ]
    where
      paged : page_items (menu page) ≡ item ∷ items
      paged = page_items_eq page raw (item ∷ items) e f

      nonempty : page_items (menu page) ≢ []
      nonempty h = ground (arith, paged, h)

      here :
          leb 60 (length (candidates ++ item ∷ items)) ≡ true
          → fetch_pages menu (suc pages) page candidates ≡ candidates ++ item ∷ items
      here g = turn pages page candidates raw item items e f ∙ rw g refl

      on :
          leb 60 (length (candidates ++ item ∷ items)) ≡ false
          → fetch_pages menu (suc pages) page candidates
            ≡ fetch_pages menu pages (page + 1) (candidates ++ item ∷ items)
      on g = turn pages page candidates raw item items e f ∙ rw g refl

      later :
          (k : ℕ)
          → leb 60 (length (candidates ++ item ∷ items)) ≡ false
          → Stopped menu pages
              (page + 1)
              k
              (fetch_pages menu pages (page + 1) (candidates ++ item ∷ items))
          → Stopped menu (suc pages) page (suc k) (fetch_pages menu (suc pages) page candidates)
      later k g (inl w) = inl (ap suc w)
      later k g (inr (inl w)) = inr (inl (subst (λ t. 60 ≤ length t) (sym (on g)) w))
      later k g (inr (inr w)) = inr (inr (subst (λ p. page_items (menu p) ≡ []) (omega arith) w))

  by_items :
      (pages page : ℕ) (candidates : List FillerCandidate) (raw : Option RawMenu)
      (cs : List FillerCandidate)
      → menu page ≡ success raw
      → map_menu_response_to_filler_candidates raw ≡ cs
      → length candidates < 60
      → ((next : List FillerCandidate) → length next < 60 → Fetched menu pages (page + 1) next)
      → Fetched menu (suc pages) page candidates
  unfolding fetch_pages
  by_items pages page candidates raw [] e f few rest =
      ends_here pages page candidates (page_items_eq page raw [] e f) (rw (fetch_pages, e, f) refl)
  by_items pages page candidates raw (item ∷ items) e f few rest =
      goes_on pages page candidates raw item items e f few (rest (candidates ++ item ∷ items))

  by_reply :
      (pages page : ℕ) (candidates : List FillerCandidate) (r : Reply (Option RawMenu))
      → menu page ≡ r
      → length candidates < 60
      → ((next : List FillerCandidate) → length next < 60 → Fetched menu pages (page + 1) next)
      → Fetched menu (suc pages) page candidates
  unfolding fetch_pages
  by_reply pages page candidates failed e few rest =
      ends_here pages page candidates (ap page_items e) (rw (fetch_pages, e) refl)
  by_reply pages page candidates refused e few rest =
      ends_here pages page candidates (ap page_items e) (rw (fetch_pages, e) refl)
  by_reply pages page candidates (success raw) e few rest =
      by_items pages page candidates raw (map_menu_response_to_filler_candidates raw) e refl few
        rest

  fetch_pages-Fetched :
      (pages page : ℕ) (candidates : List FillerCandidate)
      → length candidates < 60
      → Fetched menu pages page candidates
  unfolding fetch_pages
  fetch_pages-Fetched zero page candidates few =
      (0, omega arith, sym (append-nil candidates), inl refl, tt)
  fetch_pages-Fetched (suc pages) page candidates few =
      by_reply pages page candidates (menu page) refl few
        (λ next less. fetch_pages-Fetched pages (page + 1) next less)

-- The candidates of a request are those of its first `k` menu pages in order, for the one `k` of at
-- most 6 at which the loop has to stop: before each of these pages there were fewer than 60
-- candidates, and the page had some (its call did not fail, was not refused, and was not empty); and
-- `k` is 6, or there are 60 candidates or more, or the next page has none.
pub fetch_filler_candidates_pages :
    (menu : ℕ → Reply (Option RawMenu))
    → (k : ℕ) × (k ≤ 6)
      × (fetch_filler_candidates menu ≡ pages_from menu k 1)
      × ((k ≡ 6)
          ⊎ ((60 ≤ length (fetch_filler_candidates menu)) ⊎ (page_items (menu (1 + k)) ≡ [])))
      × WentOn menu [] k 1
unfolding fetch_filler_candidates
fetch_filler_candidates_pages menu = fetch_pages-Fetched menu 6 1 [] (omega arith)
