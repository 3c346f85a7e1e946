-- ===== src/Synchronizer/Survey.antt =====
-- What the first loop of the synchronizer knows of the storage locations.
use oadp_non_admin.Base.{
  String, ◌≡◌, ◌≢◌, refl, sym, subst, Bool-cases, ◌==◌, ◌⊎◌, inl, inr, Bool, true, false, none,
  List, [], ◌∷◌, ◌++◌, All, All-append, lookup, Mem, mem-cons_self, mem-cons_of_mem, if◌then◌else◌,
}
use oadp_non_admin.Function.Metadata.{check_velero_backup_storage_location_metadata}
use oadp_non_admin.Function.Entries.{lookup_here}
use oadp_non_admin.Kube.Objects.{BackupStorageLocation, StringMap}
use oadp_non_admin.Kube.Status.{ApiError}
use oadp_non_admin.Kube.Api.{Call, Prog, ok, err, event, History}
use oadp_non_admin.Kube.Rules.{Rules, Keeps, Keeps-if, Keeps-mono}
use oadp_non_admin.Kube.Facts.{
  Stays, Missing, Includes, Includes-next, Keeps-stays, Listed, Listed-Stays,
}
use oadp_non_admin.Kube.Vendor.{Vendor}
use oadp_non_admin.Synchronizer.Steps.{
  SynchronizerReconciler, Watched, watch_default, watch_related, watch_storage_locations, nabsl_key,
}
use oadp_non_admin.Synchronizer.Rules.{
  bsls, IsRelated, AllWatched, AllWatched-Stays, synchronizer_rules,
}

module _ ⦃v : Vendor⦄ (r : SynchronizerReconciler) where
  abbrev pub R : Rules
  R = synchronizer_rules r

  watch_default-AllWatched :
      (h : History) (bsl : BackupStorageLocation) (w : Watched)
      → Listed (bsls r) bsl h
      → AllWatched r w h
      → AllWatched r (watch_default bsl w) h
  watch_default-AllWatched h bsl w l a = by_default bsl.is_default refl
    where
      by_default :
          (b : Bool)
          → bsl.is_default ≡ b
          → AllWatched r (if b then record w { names = w.names ++ (bsl.meta.name ∷ []) } else w) h
      by_default true e = (All-append _ w.names bsl.meta.name a.0 (inl (bsl, l, refl, e)), a.1)
      by_default false e = a

  default-related :
      (bsl : BackupStorageLocation) (w : Watched) → (watch_default bsl w).related ≡ w.related
  default-related bsl w = by_default bsl.is_default
    where
      by_default :
          (b : Bool)
          → (if b then record w { names = w.names ++ (bsl.meta.name ∷ []) } else w).related
            ≡ w.related
      by_default true = refl
      by_default false = refl

  -- What the first loop knows of a storage location.
  abbrev pub Settled : StringMap → BackupStorageLocation → History → Type 0
  Settled related bsl h =
      (lookup bsl.meta.name related ≢ none)
      ⊎ ((check_velero_backup_storage_location_metadata bsl.meta ≡ false)
          ⊎ Missing (Call.get_nabsl (nabsl_key bsl.meta)) h)

  pub Settled-Stays :
      (related : StringMap) (bsl : BackupStorageLocation) → Stays (Settled related bsl)
  Settled-Stays related bsl h g i (inl e) = inl e
  Settled-Stays related bsl h g i (inr (inl e)) = inr (inl e)
  Settled-Stays related bsl h g i (inr (inr m)) = inr (inr (i _ m))

  abbrev Grows : StringMap → StringMap → Type 0
  Grows m n = (k : String) → lookup k m ≢ none → lookup k n ≢ none

  found_behind : (j x : String) (m : StringMap) → Grows m ((j, x) ∷ m)
  found_behind j x m k f = elim (Bool-cases (j == k)) [ inl e ↦ rw e (λ q. cc q) | inr e ↦ rw e f ]

  found_here : (j x : String) (m : StringMap) → lookup j ((j, x) ∷ m) ≢ none
  found_here j x m e = let f = lookup_here j x m in cc

  Grows-same : (m n : StringMap) → n ≡ m → Grows m n
  Grows-same m n e k f = subst (λ x. lookup k x ≢ none) (sym e) f

  -- What the first loop has reached for these storage locations, from the map that it began with.
  abbrev pub Surveyed : StringMap → List BackupStorageLocation → History → Watched → Type 0
  Surveyed m items g w =
      AllWatched r w g × Grows m w.related × All (λ bsl. Settled w.related bsl g) items

  Settled-Grows :
      (m n : StringMap) (bsl : BackupStorageLocation) (h : History)
      → Grows m n
      → Settled m bsl h
      → Settled n bsl h
  Settled-Grows m n bsl h f (inl e) = inl (f bsl.meta.name e)
  Settled-Grows m n bsl h f (inr s) = inr s

  -- One more storage location, settled before the rest of the loop.
  Surveyed-more :
      (m n : StringMap) (bsl : BackupStorageLocation) (items : List BackupStorageLocation)
      (h : History) (rest : Prog Watched)
      → Grows m n
      → Settled n bsl h
      → Keeps R (Surveyed n items) h rest
      → Keeps R (Surveyed m (bsl ∷ items)) h rest
  Surveyed-more m n bsl items h rest f s k =
      Keeps-mono R (λ g w. Settled n bsl g × Surveyed n items g w) (Surveyed m (bsl ∷ items)) h rest
        (Keeps-stays R (Surveyed n items) (Settled n bsl) (Settled-Stays n bsl) h rest s k)
        (λ g w q.
          (q.1.0, (λ k e. q.1.1 k (f k e)), (Settled-Grows n w.related bsl g q.1.1 q.0, q.1.2)))

  pub watch_storage_locations-Keeps :
      (h : History) (items : List BackupStorageLocation) (w : Watched)
      → ((bsl : BackupStorageLocation) → Mem bsl items → Listed (bsls r) bsl h)
      → AllWatched r w h
      → Keeps R (Surveyed w.related items) h (watch_storage_locations items w)
  unfolding watch_storage_locations
  watch_storage_locations-Keeps h [] w f a = (a, (λ k e. e), tt)
  watch_storage_locations-Keeps h (bsl ∷ items) w f a =
      let later : (g : History)
          → Includes h g
          → (y : BackupStorageLocation) → Mem y items
          → Listed (bsls r) y g =
        λ g i y m. Listed-Stays (bsls r) y h g i (f y (mem-cons_of_mem bsl m)) in
      let w1 = watch_default bsl w in
      let a1 = watch_default-AllWatched h bsl w (f bsl mem-cons_self) a in
      let g1 = Grows-same w.related w1.related (default-related bsl w) in
      Keeps-if R _ h (check_velero_backup_storage_location_metadata bsl.meta) _ _
        (λ e. (
          tt,
          elim [
            | ok y ↦ λ _.
                let g = event (Call.get_nabsl (nabsl_key bsl.meta)) (ok y) ∷ h in
                let b = AllWatched-Stays r w1 h g (Includes-next _ h) a1 in
                let o : IsRelated r bsl.meta.name (nabsl_key bsl.meta).name g = (
                  bsl,
                  record {
                    listed =
                        Listed-Stays (bsls r) bsl h g (Includes-next _ h) (f bsl mem-cons_self);
                    same_name = refl;
                    named = refl;
                    marked = e;
                    there = inl (y, refl);
                  },
                ) in
                let user = (nabsl_key bsl.meta).name in
                Surveyed-more w.related (watch_related bsl w1).related bsl items g _
                  (λ k e. found_behind bsl.meta.name user w1.related k (g1 k e))
                  (inl (found_here bsl.meta.name user w1.related))
                  (watch_storage_locations-Keeps g items (watch_related bsl w1)
                    (later g (Includes-next _ h))
                    (All-append _ w1.names bsl.meta.name b.0 (inr (user, o)), (o, b.1)))
            | err ApiError.not_found ↦ λ _.
                let g = event (Call.get_nabsl (nabsl_key bsl.meta)) (err ApiError.not_found) ∷ h in
                Surveyed-more w.related w1.related bsl items g _ g1 (inr (inr (inl refl))) (
                  watch_storage_locations-Keeps g items w1 (later g (Includes-next _ h))
                    (AllWatched-Stays r w1 h g (Includes-next _ h) a1))
            | err ApiError.conflict ↦ λ _. tt
            | err ApiError.other ↦ λ _. tt
          ],
        ))
        (λ e.
          Surveyed-more w.related w1.related bsl items h _ g1 (inr (inl e))
            (watch_storage_locations-Keeps h items w1 (later h (λ P s. s)) a1))
