-- ===== src/Query/Glob/Build.antt =====
-- internal/query/stringmatcher.go: the builder keeps the meaning of the wildcard list it is fed.
use mathlib.Core.Path.{subst}
use ayd.Common.{
  ℕ, ◌+◌, true, false, ◌≡◌, ◌≢◌, refl, sym, ap, ◌∙◌, ◌⊎◌, inl, inr, List, [], ◌∷◌, ◌++◌, Option,
  none, some, Bytes, length, arith, append-nil, append_assoc, All, get_last?-concat,
  drop_last-concat,
}
use ayd.Query.Glob.{
  string_match, choose, build, GlobBuilder, new_builder, flush, feed_all, new_string_matcher,
}
use ayd.Query.Glob.Pattern.{Lit, Star, Gaps, Matches, Star-append}
use ayd.Query.Glob.Chunks.{total, Decides, Decides-map, Ending}
use ayd.Query.Glob.Matcher.{GlobForm, exact-Decides, choose-Decides}

module _ {K L : Bytes → Type 0} (f : (v : Bytes) → K v → L v) where
  Lit-map : (l t : Bytes) → Lit l K t → Lit l L t
  Lit-map l t (v, e, k) = (v, e, f v k)

  Star-map : (t : Bytes) → Star K t → Star L t
  Star-map t (w, v, e, k) = (w, v, e, f v k)

module _ (K L : Bytes → Type 0) where
  Gaps-map : ((v : Bytes) → K v → L v) → (cs : List Bytes) (t : Bytes) → Gaps cs K t → Gaps cs L t
  Gaps-map f [] t h = Star-map f t h
  Gaps-map f (c ∷ cs) t h = Star-map (Lit-map {K = Gaps cs K} {L = Gaps cs L} (Gaps-map f cs) c) t h

module _ (K : Bytes → Type 0) where
  -- A wildcard after the last gap adds nothing.
  Gaps-absorb : (cs : List Bytes) (t : Bytes) → Gaps cs (Star K) t → Gaps cs K t
  Gaps-absorb [] t (w, v, e, k) = subst (Star K) (sym e) (Star-append w k)
  Gaps-absorb (c ∷ cs) t h =
      Star-map (Lit-map {K = Gaps cs (Star K)} {L = Gaps cs K} (Gaps-absorb cs) c) t h

  Gaps-concat→ :
      (cs : List Bytes) (c t : Bytes) → Gaps (cs ++ c ∷ []) K t → Gaps cs (Lit c (Star K)) t
  Gaps-concat→ [] c t h = h
  Gaps-concat→ (d ∷ cs) c t h =
      Star-map
        (Lit-map {K = Gaps (cs ++ c ∷ []) K} {L = Gaps cs (Lit c (Star K))}
          (λ v. Gaps-concat→ cs c v) d)
        t h

  Gaps-concat← :
      (cs : List Bytes) (c t : Bytes) → Gaps cs (Lit c (Star K)) t → Gaps (cs ++ c ∷ []) K t
  Gaps-concat← [] c t h = h
  Gaps-concat← (d ∷ cs) c t h =
      Star-map
        (Lit-map {K = Gaps cs (Lit c (Star K))} {L = Gaps (cs ++ c ∷ []) K}
          (λ v. Gaps-concat← cs c v) d)
        t h

  Lit-append→ : (l k t : Bytes) → Lit (l ++ k) K t → Lit l (Lit k K) t
  Lit-append→ l k t (v, e, h) = (k ++ v, e ∙ append_assoc l k v, (v, refl, h))

  Lit-append← : (l k t : Bytes) → Lit l (Lit k K) t → Lit (l ++ k) K t
  Lit-append← l k t (u, e, (v, e', h)) = (v, e ∙ ap (λ x. l ++ x) e' ∙ sym (append_assoc l k v), h)

  Lit-nil : (t : Bytes) → K t → Lit [] K t
  Lit-nil t h = (t, refl, h)

  nil-Lit : (t : Bytes) → Lit [] K t → K t
  nil-Lit t (v, e, h) = subst K (sym e) h

abbrev End : Bytes → Type 0
End t = t ≡ []

total-concat : (cs : List Bytes) (c : Bytes) → total (cs ++ c ∷ []) ≡ total cs + length c
total-concat [] c = omega arith
total-concat (d ∷ cs) c = omega (arith, total-concat cs c)

-- The literals of a query are not empty: the tokenizer makes no other.
abbrev pub Filled : Option Bytes → Type 0
Filled none = Unit
Filled (some l) = l ≢ []

longer : (buf : Bytes) (x : ℕ) (l : Bytes) → buf ++ x ∷ l ≢ []
longer [] x l e = cc
longer (y ∷ buf) x l e = cc

-- The builder once a wildcard has been fed last.
abbrev after_star : Bytes → List Bytes → ℕ → GlobBuilder
after_star p cs n = record {
  prefix_closed = true;
  prefix = p;
  no_suffix = true;
  chunks = cs;
  chunks_length = n;
}

build-flush :
    (p : Bytes) (cs : List Bytes) (n x : ℕ) (buf : Bytes)
    → build (flush (after_star p cs n) (x ∷ buf)) ≡ choose p false (x ∷ buf) cs n
unfolding build flush
build-flush p [] n x buf = ap (choose p false (x ∷ buf) []) (omega arith)
build-flush p (c ∷ cs) n x buf =
    rw (get_last?-concat (c ∷ cs) (x ∷ buf), drop_last-concat (c ∷ cs) (x ∷ buf))
      (ap (choose p false (x ∷ buf) (c ∷ cs)) (omega arith))

build_open :
    (p : Bytes) (cs : List Bytes) (n : ℕ)
    → build (flush (after_star p cs n) []) ≡ choose p true [] cs n
unfolding build flush
build_open p [] n = refl
build_open p (c ∷ cs) n = refl

module _ (t : Bytes) where
  -- From any state after a wildcard the built matcher decides whether the text has the prefix, the
  -- chunks with gaps, the buffered literal, and then what is left of the list.
  after_star-Decides :
      (query : List (Option Bytes)) (p : Bytes) (cs : List Bytes) (n : ℕ) (buf : Bytes)
      → n ≡ total cs
      → Decides
          (Lit p (Gaps cs (Lit buf (Matches query))) t)
          (string_match (feed_all (after_star p cs n) buf query) t)
  unfolding feed_all
  after_star-Decides [] p cs n [] e = rw (build_open p cs n) (
      Decides-map (GlobForm p cs [] t) _ _
        (Lit-map (Gaps-map (Ending []) (Lit [] End) (Lit-nil End) cs) p t)
        (Lit-map (Gaps-map (Lit [] End) (Ending []) (nil-Lit End) cs) p t)
        (choose-Decides p true [] cs n t e (inl refl)))
  after_star-Decides [] p cs n (x ∷ buf) e = rw (build-flush p cs n x buf) (
      Decides-map (GlobForm p cs (x ∷ buf) t) _ _
        (Lit-map
          (Gaps-map (Ending (x ∷ buf)) (Lit (x ∷ buf) End)
            (λ v h. ([], h ∙ sym (append-nil (x ∷ buf)), refl)) cs)
          p t)
        (Lit-map
          (Gaps-map (Lit (x ∷ buf) End) (Ending (x ∷ buf))
            (λ v (u, h, k). h ∙ ap (λ y. (x ∷ buf) ++ y) k ∙ append-nil (x ∷ buf)) cs)
          p t)
        (choose-Decides p false (x ∷ buf) cs n t e (inr (λ h. cc))))
  after_star-Decides (none ∷ query) p cs n [] e =
      let K = Matches query in
      Decides-map (Lit p (Gaps cs (Lit [] K)) t) _ _
        (Lit-map
          (λ v h.
            Gaps-map K (Lit [] (Star K)) (λ u k. Lit-nil (Star K) u ([], u, refl, k)) cs v
              (Gaps-map (Lit [] K) K (nil-Lit K) cs v h))
          p t)
        (Lit-map
          (λ v h.
            Gaps-map K (Lit [] K) (Lit-nil K) cs v
              (Gaps-absorb K cs v (Gaps-map (Lit [] (Star K)) (Star K) (nil-Lit (Star K)) cs v h)))
          p t)
        (after_star-Decides query p cs n [] e)
  after_star-Decides (none ∷ query) p cs n (x ∷ buf) e =
      let K = Matches query in
      let next = cs ++ (x ∷ buf) ∷ [] in
      Decides-map (Lit p (Gaps next (Lit [] K)) t) _ _
        (Lit-map (λ v h. Gaps-concat→ K cs (x ∷ buf) v (Gaps-map (Lit [] K) K (nil-Lit K) next v h))
          p t)
        (Lit-map (λ v h. Gaps-map K (Lit [] K) (Lit-nil K) next v (Gaps-concat← K cs (x ∷ buf) v h))
          p t)
        (after_star-Decides query p next (n + length (x ∷ buf)) []
          (omega (arith, total-concat cs (x ∷ buf))))
  after_star-Decides (some l ∷ query) p cs n buf e =
      let K = Matches query in
      Decides-map (Lit p (Gaps cs (Lit (buf ++ l) K)) t) _ _
        (Lit-map (Gaps-map (Lit (buf ++ l) K) (Lit buf (Lit l K)) (Lit-append→ K buf l) cs) p t)
        (Lit-map (Gaps-map (Lit buf (Lit l K)) (Lit (buf ++ l) K) (Lit-append← K buf l) cs) p t)
        (after_star-Decides query p cs n (buf ++ l) e)

  -- Before any wildcard: the literal in the buffer, and what is left of the list.
  start-Decides :
      (query : List (Option Bytes)) (buf : Bytes)
      → All Filled query
      → (buf ≢ []) ⊎ (query ≢ [])
      → Decides (Lit buf (Matches query) t) (string_match (feed_all new_builder buf query) t)
  unfolding feed_all
  start-Decides [] [] h (inl n) = absurd (n refl)
  start-Decides [] [] h (inr n) = absurd (n refl)
  start-Decides [] (x ∷ buf) h n =
      Decides-map (t ≡ x ∷ buf) _ _ (λ e. ([], e ∙ sym (append-nil (x ∷ buf)), refl))
        (λ (v, e, k). e ∙ ap (λ y. (x ∷ buf) ++ y) k ∙ append-nil (x ∷ buf))
        (exact-Decides (x ∷ buf) t)
  start-Decides (none ∷ query) [] h n =
      let K = Matches query in
      Decides-map (Lit [] (Star (Lit [] K)) t) _ _ (Lit-map (Star-map (nil-Lit K)) [] t)
        (Lit-map (Star-map (Lit-nil K)) [] t) (after_star-Decides query [] [] 0 [] refl)
  start-Decides (none ∷ query) (x ∷ buf) h n =
      let K = Matches query in
      Decides-map (Lit (x ∷ buf) (Star (Lit [] K)) t) _ _
        (Lit-map (Star-map (nil-Lit K)) (x ∷ buf) t) (Lit-map (Star-map (Lit-nil K)) (x ∷ buf) t)
        (after_star-Decides query (x ∷ buf) [] 0 [] refl)
  start-Decides (some [] ∷ query) buf h n = absurd (h.0 refl)
  start-Decides (some (x ∷ l) ∷ query) buf h n =
      let K = Matches query in
      Decides-map (Lit (buf ++ x ∷ l) K t) _ _ (Lit-append→ K buf (x ∷ l) t)
        (Lit-append← K buf (x ∷ l) t)
        (start-Decides query (buf ++ x ∷ l) h.1 (inl (longer buf x l)))

-- A matcher made from literals and wildcards, with no literal empty, answers without a panic
-- whether the whole text is those literals in order, with any run of bytes at each wildcard.
pub new_string_matcher-Decides :
    (query : List (Option Bytes)) (t : Bytes)
    → All Filled query
    → Decides (Matches query t) (string_match (new_string_matcher query) t)
unfolding new_string_matcher
new_string_matcher-Decides [] t h = exact-Decides [] t
new_string_matcher-Decides (item ∷ query) t h =
    Decides-map (Lit [] (Matches (item ∷ query)) t) _ _ (nil-Lit (Matches (item ∷ query)) t)
      (Lit-nil (Matches (item ∷ query)) t) (start-Decides t (item ∷ query) [] h (inr λ e. cc))
