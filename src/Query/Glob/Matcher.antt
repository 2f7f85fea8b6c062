-- ===== src/Query/Glob/Matcher.antt =====
-- internal/query/stringmatcher.go: each matcher answers, without a panic, whether a text has its
-- prefix, its chunks and its suffix in order.
use mathlib.Core.Path.{subst}
use mathlib.Core.Bool.{false≢true}
use ayd.Common.{
  ℕ, ◌+◌, ◌-◌, ◌≤◌, Bool, true, false, not, ◌||◌, ◌≡◌, refl, sym, ap, ◌∙◌, ◌⊎◌, inl, inr, List, [],
  ◌∷◌, ◌++◌, Option, none, some, Bytes, bytes_eq, bytes_eq_iff, length, take, drop, arith, tests,
  ltb, leb, if◌then◌else◌, append-nil, append_assoc, length-append, take-append-drop, drop-append,
  take-append, ◌≢◌,
}
use ayd.Query.Glob.{
  has_prefix, has_suffix, contains, index, match_glob, GlobMatcher, exact, starts, ends, includes,
  string_match, choose,
}
use ayd.Query.Glob.Pattern.{Lit, Gaps}
use ayd.Query.Glob.Index.{has_prefix-append, has_prefix_sound, index_sound, index_complete}
use ayd.Query.Glob.Chunks.{total, Decides, Decides-map, Ending, match_chunks-Decides, Gaps-length}

-- The text is the prefix, the chunks with any bytes around them, and the suffix.
abbrev pub GlobForm : Bytes → List Bytes → Bytes → Bytes → Type 0
GlobForm prefix chunks suffix = Lit prefix (Gaps chunks (Ending suffix))

-- A text of a guard: what is tested first, and what the rest decides.
Decides-guard :
    (P : Type 0) (b : Bool) (o : Option Bool)
    → (b ≡ true → ¬ P)
    → (b ≡ false → Decides P o)
    → Decides P (if b then some false else o)
Decides-guard P true o h k = h refl
Decides-guard P false o h k = k refl

Gaps-Ending :
    (suffix : Bytes) (cs : List Bytes) (t : Bytes)
    → Gaps cs (Ending suffix) t
    → (w : Bytes) × (t ≡ w ++ suffix)
Gaps-Ending suffix [] t (w, v, e, k) = (w, e ∙ ap (λ x. w ++ x) k)
Gaps-Ending suffix (c ∷ cs) t (w, u, e, (v, e', k)) =
    let (z, ez) = Gaps-Ending suffix cs v k in
    (
      w ++ (c ++ z),
      e
          ∙ ap (λ x. w ++ x) (e' ∙ ap (λ x. c ++ x) ez ∙ sym (append_assoc c z suffix))
          ∙ sym (append_assoc w (c ++ z) suffix),
    )

module _ (g : GlobMatcher) (s : Bytes) where
  abbrev Form : Type 0
  Form = GlobForm g.prefix g.chunks g.suffix s

  Form_length : Form → length g.prefix + total g.chunks + length g.suffix ≤ length s
  Form_length (v, e, k) =
      omega (arith, ap length e, length-append g.prefix v, Gaps-length g.suffix g.chunks v k)

  Form_prefix : Form → take (length g.prefix) s ≡ g.prefix
  Form_prefix (v, e, k) = ap (take (length g.prefix)) e ∙ take-append g.prefix v

  Form_suffix : Form → drop (length s - length g.suffix) s ≡ g.suffix
  Form_suffix (v, e, k) =
      let (w, ew) = Gaps-Ending g.suffix g.chunks v k in
      let whole : s ≡ (g.prefix ++ w) ++ g.suffix =
        e ∙ ap (λ x. g.prefix ++ x) ew ∙ sym (append_assoc g.prefix w g.suffix) in
      ap (λ x. drop (length x - length g.suffix) x) whole
      ∙ ap (λ n. drop n ((g.prefix ++ w) ++ g.suffix))
          (omega (arith, length-append (g.prefix ++ w) g.suffix))
      ∙ drop-append (g.prefix ++ w) g.suffix

  ends_differ :
      (not (bytes_eq (take (length g.prefix) s) g.prefix)
          || not (bytes_eq (drop (length s - length g.suffix) s) g.suffix))
        ≡ true
      → ¬ Form
  ends_differ differs h = ground (
    arith,
    (bytes_eq_iff (take (length g.prefix) s) g.prefix).1 (Form_prefix h),
    (bytes_eq_iff (drop (length s - length g.suffix) s) g.suffix).1 (Form_suffix h),
  )

  -- Where the length of the chunks is noted as it is, the matcher answers, with no slice out of
  -- range, exactly whether the text is the prefix, then the chunks in order with any run of bytes
  -- around each, then the suffix.
  pub match_glob-Decides : g.chunks_length ≡ total g.chunks → Decides Form (match_glob g s)
  unfolding match_glob
  match_glob-Decides len =
      Decides-guard Form (ltb (length s) (length g.prefix + g.chunks_length + length g.suffix)) _
        (λ short h. omega (tests, len, Form_length h))
        λ long.
          Decides-guard Form
            (not (bytes_eq (take (length g.prefix) s) g.prefix)
              || not (bytes_eq (drop (length s - length g.suffix) s) g.suffix))
            _ ends_differ
            λ fits.
              let e1 : take (length g.prefix) s ≡ g.prefix = (bytes_eq_iff _ _).0 (ground arith) in
              let e2 : drop (length s - length g.suffix) s ≡ g.suffix =
                (bytes_eq_iff _ _).0 (ground arith) in
              let front : s ≡ g.prefix ++ drop (length g.prefix) s =
                sym (take-append-drop (length g.prefix) s)
                ∙ ap (λ x. x ++ drop (length g.prefix) s) e1 in
              let back : s ≡ take (length s - length g.suffix) s ++ g.suffix =
                sym (take-append-drop (length s - length g.suffix) s)
                ∙ ap (λ x. take (length s - length g.suffix) s ++ x) e2 in
              Decides-map (Gaps g.chunks (Ending g.suffix) (drop (length g.prefix) s)) Form _
                (λ k. (drop (length g.prefix) s, front, k))
                (λ (v, e, k).
                  subst (λ x. Gaps g.chunks (Ending g.suffix) x)
                    (sym (ap (drop (length g.prefix)) e ∙ drop-append g.prefix v)) k)
                (match_chunks-Decides s g.suffix _ back g.chunks (length g.prefix)
                  (length s - g.chunks_length - length g.suffix) (omega tests) (omega tests))

Decides-some : (P : Type 0) (b : Bool) → (b ≡ true → P) → (P → b ≡ true) → Decides P (some b)
Decides-some P true f g = f refl
Decides-some P false f g = λ p. false≢true (g p)

pub exact-Decides : (str s : Bytes) → Decides (s ≡ str) (string_match (exact str) s)
unfolding string_match
exact-Decides str s =
    Decides-some (s ≡ str) (bytes_eq str s) (λ h. sym ((bytes_eq_iff str s).0 h))
      (λ e. (bytes_eq_iff str s).1 (sym e))

starts-Decides : (p s : Bytes) → Decides (GlobForm p [] [] s) (string_match (starts p) s)
unfolding string_match
starts-Decides p s =
    Decides-some (GlobForm p [] [] s) (has_prefix s p)
      (λ h. let (v, e) = has_prefix_sound s p h in (v, e, (v, [], sym (append-nil v), refl)))
      (λ (v, e, k). ap (λ x. has_prefix x p) e ∙ has_prefix-append p v)

ends-Decides : (p s : Bytes) → Decides (GlobForm [] [] p s) (string_match (ends p) s)
unfolding string_match has_suffix
ends-Decides p s =
    Decides-some (GlobForm [] [] p s) (has_suffix s p)
      (λ h.
        let e : drop (length s - length p) s ≡ p = (bytes_eq_iff _ _).0 (ground arith) in
        (
          s,
          refl,
          (
            take (length s - length p) s,
            p,
            sym (take-append-drop (length s - length p) s)
                ∙ ap (λ x. take (length s - length p) s ++ x) e,
            refl,
          ),
        ))
      (λ h.
        let g : GlobMatcher = record { prefix = []; suffix = p; chunks = []; chunks_length = 0 } in
        let e = (bytes_eq_iff _ _).1 (Form_suffix g s h) in
        let low = leb_true (length p) (length s) (omega (arith, Form_length g s h)) in ground arith)
  where
    leb_true : (a b : ℕ) → a ≤ b → leb a b ≡ true
    leb_true a b h = ground arith

includes-Decides : (c s : Bytes) → Decides (GlobForm [] (c ∷ []) [] s) (string_match (includes c) s)
unfolding string_match contains
includes-Decides c s =
    Decides-some (GlobForm [] (c ∷ []) [] s) (contains s c) (found (index s c) refl) finds
  where
    found :
        (o : Option ℕ)
        → index s c ≡ o
        → elim o [ none ↦ false | some i ↦ true ] ≡ true
        → GlobForm [] (c ∷ []) [] s
    found none e h = absurd (false≢true h)
    found (some i) e h =
        let (w, v, e', n) = index_sound s c i e in
        (s, refl, (w, c ++ v, e', (v, refl, (v, [], sym (append-nil v), refl))))

    finds : GlobForm [] (c ∷ []) [] s → contains s c ≡ true
    finds (u, eu, (w, x, e, (v, e', k))) =
        let whole : s ≡ w ++ (c ++ v) = eu ∙ e ∙ ap (λ y. w ++ y) e' in
        let (i, h, low) = index_complete w c v in rw (ap (λ y. index y c) whole ∙ h, contains)

-- A matcher of the general kind.
glob-Decides :
    (p suffix : Bytes) (cs : List Bytes) (n : ℕ) (s : Bytes)
    → n ≡ total cs
    → Decides
        (GlobForm p cs suffix s)
        (match_glob (record { prefix = p; suffix = suffix; chunks = cs; chunks_length = n }) s)
glob-Decides p suffix cs n s e =
    match_glob-Decides (record { prefix = p; suffix = suffix; chunks = cs; chunks_length = n }) s e

-- Whatever matcher `Build` takes for a prefix, chunks and a suffix, it answers the same question.
pub choose-Decides :
    (p : Bytes) (no_suffix : Bool) (suffix : Bytes) (cs : List Bytes) (n : ℕ) (s : Bytes)
    → n ≡ total cs
    → (no_suffix ≡ true) ⊎ (suffix ≢ [])
    → Decides (GlobForm p cs suffix s) (string_match (choose p no_suffix suffix cs n) s)
unfolding choose string_match
choose-Decides [] no_suffix [] [] n s e h = glob-Decides [] [] [] n s e
choose-Decides [] no_suffix (y ∷ suffix) [] n s e h = ends-Decides (y ∷ suffix) s
choose-Decides (x ∷ p) true [] [] n s e h = starts-Decides (x ∷ p) s
choose-Decides (x ∷ p) false [] [] n s e (inl h) = absurd (false≢true h)
choose-Decides (x ∷ p) false [] [] n s e (inr h) = absurd (h refl)
choose-Decides (x ∷ p) no_suffix (y ∷ suffix) [] n s e h =
    glob-Decides (x ∷ p) (y ∷ suffix) [] n s e
choose-Decides [] no_suffix [] (c ∷ []) n s e h = includes-Decides c s
choose-Decides [] no_suffix (y ∷ suffix) (c ∷ []) n s e h =
    glob-Decides [] (y ∷ suffix) (c ∷ []) n s e
choose-Decides (x ∷ p) no_suffix suffix (c ∷ []) n s e h =
    glob-Decides (x ∷ p) suffix (c ∷ []) n s e
choose-Decides p no_suffix suffix (c ∷ d ∷ cs) n s e h = glob-Decides p suffix (c ∷ d ∷ cs) n s e
