-- ===== src/Store/History/Valid.antt =====
-- internal/store/probehistory.go: what holds of the history map, and that `Append` keeps it.
use ayd.Common.{
  ◌≤◌, not, true, ◌≡◌, ◌≢◌, refl, sym, ap, ◌∙◌, Option, none, some, Bytes, bytes_eq_refl,
  bytes_eq_ne, length, arith, All, ◌==◌, lookup, lookup-insert, All-insert, All-lookup,
}
use ayd.Api.Record.{Url, Record}
use ayd.Store.History.{
  ProbeHistory, ProbeHistoryMap, probe_history_len, add_source, append_to, append, is_active,
  target_is_active, entry_is_active, insert_record,
}
use ayd.Store.History.Order.{
  Rises, insert_record-Rises, length-insert_record, Rises-trim, length-trim,
}
use ayd.Store.History.Sources.{Distinct, Distinct-added, sources-add_source, added_nonempty}

module _ {X : Type 0} where
  -- An entry: within the limit, in the order of time, no reporter twice, under its own key.
  pub record IsValidEntry (e : Bytes × ProbeHistory X) : Type 0 where
    pub short : length e.1.records ≤ probe_history_len
    pub ordered : Rises e.1.records
    pub distinct : Distinct e.1.sources
    pub keyed : e.0 ≡ e.1.target.text

  abbrev pub IsValid : ProbeHistoryMap X → Type 0
  IsValid hs = All IsValidEntry hs

  -- `addSource` leaves the records and the target alone.
  add_source_keeps :
      (ph : ProbeHistory X) (source : Url)
      → ((add_source ph source).records ≡ ph.records) × ((add_source ph source).target ≡ ph.target)
  unfolding add_source
  add_source_keeps ph source = ground arith

  pub add_source-IsValidEntry :
      (k : Bytes) (ph : ProbeHistory X) (source : Url)
      → IsValidEntry (k, ph)
      → IsValidEntry (k, add_source ph source)
  add_source-IsValidEntry k ph source v =
      let (records, target) = add_source_keeps ph source in
      record {
        short = rw records v.short;
        ordered = rw records v.ordered;
        distinct =
            rw (sources-add_source ph source) (Distinct-added source.text ph.sources v.distinct);
        keyed = rw target v.keyed;
      }

  append_to-IsValidEntry :
      (o : Option (ProbeHistory X)) (r : Record X)
      → ((ph : ProbeHistory X) → o ≡ some ph → IsValidEntry (r.target.text, ph))
      → IsValidEntry (r.target.text, append_to o r)
  unfolding append_to
  append_to-IsValidEntry none r h = record {
    short = omega arith;
    ordered = (tt, tt);
    distinct = tt;
    keyed = refl;
  }
  append_to-IsValidEntry (some ph) r h =
      let v = h ph refl in
      record {
        short =
            length-trim (insert_record ph.records r)
              (omega (arith, length-insert_record ph.records r, v.short));
        ordered =
            Rises-trim (insert_record ph.records r) (insert_record-Rises ph.records r v.ordered).0;
        distinct = v.distinct;
        keyed = v.keyed;
      }

  -- `Append` keeps every entry within the limit of sixty records, in the order of time, with no
  -- reporter twice and under the text of its target, whenever the record arrives.
  pub append-IsValid :
      (hs : ProbeHistoryMap X) (source : Url) (r : Record X)
      → IsValid hs
      → IsValid (append hs source r)
  unfolding append
  append-IsValid hs source r v =
      All-insert IsValidEntry r.target.text _ hs
        (add_source-IsValidEntry r.target.text (append_to (lookup r.target.text hs) r) source (
          append_to-IsValidEntry (lookup r.target.text hs) r
            (λ ph e. All-lookup IsValidEntry r.target.text ph hs v e)))
        v

  pub add_source-is_active :
      (ph : ProbeHistory X) (source : Url) → is_active (add_source ph source) ≡ true
  unfolding is_active
  add_source-is_active ph source =
      ap (λ xs. not (length xs == 0)) (sources-add_source ph source)
      ∙ added_nonempty source.text ph.sources

  -- After `Append` the target of the record is active, and no other target is touched.
  pub append_frame :
      (hs : ProbeHistoryMap X) (source : Url) (r : Record X)
      → (target_is_active (append hs source r) r.target ≡ true)
        × ((k : Bytes) → k ≢ r.target.text → lookup k (append hs source r) ≡ lookup k hs)
  unfolding append target_is_active
  append_frame hs source r =
      let ph = add_source (append_to (lookup r.target.text hs) r) source in
      (
        ap entry_is_active (lookup-insert r.target.text r.target.text ph hs)
            ∙ rw (bytes_eq_refl r.target.text)
                (add_source-is_active (append_to (lookup r.target.text hs) r) source),
        λ k ne.
            lookup-insert r.target.text k ph hs
            ∙ rw (bytes_eq_ne r.target.text k (λ e. ne (sym e))),
      )
