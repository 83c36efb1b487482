-- ===== src/ShardTree/Store/Caching/Copy.antt =====
-- The loops of `load` and `flush`: the shards and the checkpoints of one `MemoryShardStore` put into
-- another.
use incrementalmerkletree.Prelude.{
  ℕ, suc, ◌+◌, ◌-◌, ◌<◌, ◌≤◌, ◌^◌, some, List, [], ◌∷◌, ◌++◌, ok, fmap, set, drop, take, ◌≡◌, refl,
  sym, ap, ◌∙◌, map, length, get_elem?, arith, subst, append-nil, get_elem?-append_ge,
  length-append, zero-add,
}
use incrementalmerkletree.Level.{Level}
use incrementalmerkletree.OrderedMap.{Ord, OrderedMap, insert_all, insert}
use incrementalmerkletree.ShardTree.Tree.{nil}
use incrementalmerkletree.ShardTree.Prunable.Located.{LocatedPrunableTree}
use incrementalmerkletree.ShardTree.Store.{Checkpoint}
use incrementalmerkletree.ShardTree.Store.Effect.{for_each, >>=-ok, expect, ◌>>=◌}
use incrementalmerkletree.ShardTree.Store.Memory.{
  MemoryShardStore, get_shard, put_shard, add_checkpoint, put_in, fill, for_entries,
}
use incrementalmerkletree.ShardTree.Store.Memory.Shards.{
  addr, IsAddressed, put_result, put_in-put_result, put_result-IsAddressed, get_elem?-IsAddressed,
}
use incrementalmerkletree.ShardTree.Store.Interface.{Infallible, memory_store, try_modify}
use incrementalmerkletree.ShardTree.Store.Caching.{flush_shard, load_shards}

module _ {ℓ} {A : Type ℓ} where
  set-length :
      (pre rest : List A) (x y : A) → set (pre ++ y ∷ rest) (length pre) x ≡ pre ++ x ∷ rest
  set-length [] rest x y = refl
  set-length (z ∷ pre) rest x y = ap (λ xs. z ∷ xs) (set-length pre rest x y)

  pub append-drop : (pre rest : List A) (x : A) → pre ++ x ∷ rest ≡ (pre ++ x ∷ []) ++ rest
  append-drop [] rest x = refl
  append-drop (y ∷ pre) rest x = ap (λ xs. y ∷ xs) (append-drop pre rest x)

  pub length-drop : (rest : List A) → length (drop 1 rest) ≡ length rest - 1
  length-drop [] = omega arith
  length-drop (x ∷ xs) = omega arith

  pub take-length : (xs : List A) → take (length xs) xs ≡ xs
  take-length [] = refl
  take-length (x ∷ xs) = ap (λ ys. x ∷ ys) (take-length xs)

module _ {ℓ} {H : Type ℓ} (level : Level) where
  -- A shard put right after the first ones takes the place of the next one, if there is one.
  put_result-next :
      (pre rest : List (LocatedPrunableTree H)) (x : LocatedPrunableTree H)
      → put_result level (length pre) x (pre ++ rest) ≡ (pre ++ x ∷ []) ++ drop 1 rest
  unfolding fill
  put_result-next pre [] x =
      ap (λ p. set (p ++ fill level (length p) (suc (length pre) - length p)) (length pre) x)
        (append-nil pre)
      ∙ ap (λ k. set (pre ++ fill level (length pre) k) (length pre) x) (one (length pre))
      ∙ set-length pre [] x (record { root_addr = addr level (length pre); root = nil })
      ∙ append-drop pre [] x
    where
      one : (n : ℕ) → suc n - n ≡ 1
      one n = omega arith
  put_result-next pre (y ∷ rest) x =
      ap (λ k. set ((pre ++ y ∷ rest) ++ fill level (length (pre ++ y ∷ rest)) k) (length pre) x)
        (none_missing (length-append pre (y ∷ rest)))
      ∙ ap (λ xs. set xs (length pre) x) (append-nil (pre ++ y ∷ rest))
      ∙ set-length pre rest x y
      ∙ append-drop pre rest x
    where
      none_missing : {n : ℕ} → n ≡ length pre + length (y ∷ rest) → suc (length pre) - n ≡ 0
      none_missing e = omega arith

  -- The shards `pre ++ ts` are copied to `pre ++ rest`, up to the end of `pre`.
  unfoldable pub Copying :
      List (LocatedPrunableTree H)
      → List (LocatedPrunableTree H)
      → List (LocatedPrunableTree H)
      → Type 0
  unfolding IsAddressed
  Copying pre ts rest =
      IsAddressed level 0 (pre ++ ts)
      × (length (pre ++ ts) < 2 ^ 64)
      × IsAddressed level 0 (pre ++ rest)
      × (length rest ≤ length ts)

  pub Copying-next :
      (pre ts rest : List (LocatedPrunableTree H)) (x : LocatedPrunableTree H)
      → Copying pre (x ∷ ts) rest
      → (get_elem? (pre ++ x ∷ ts) x.root_addr.index ≡ some x)
        × (put_in x (pre ++ rest) ≡ some ((pre ++ x ∷ []) ++ drop 1 rest))
        × Copying (pre ++ x ∷ []) ts (drop 1 rest)
  unfolding Copying
  Copying-next pre ts rest x (h, fits, k, short) = (
    ap (λ a. get_elem? (pre ++ x ∷ ts) a.index) at_root ∙ at,
    put_in-put_result level (length pre) x (pre ++ rest) k
          (omega (arith, fits, short, length-append pre (x ∷ ts), length-append pre rest)) at_root
        ∙ ap some (put_result-next pre rest x),
    (
      subst (IsAddressed level 0) (append-drop pre ts x) h,
      subst (λ xs. length xs < 2 ^ 64) (append-drop pre ts x) fits,
      subst (IsAddressed level 0) (put_result-next pre rest x)
          (put_result-IsAddressed level (length pre) x (pre ++ rest) k at_root),
      omega (arith, short, length-drop rest),
    ),
  )
    where
      plus_zero : (n : ℕ) → n + 0 ≡ n
      plus_zero n = omega arith

      at : get_elem? (pre ++ x ∷ ts) (length pre) ≡ some x
      at =
          subst (λ k. get_elem? (pre ++ x ∷ ts) k ≡ some x) (plus_zero (length pre))
            (get_elem?-append_ge pre (x ∷ ts) 0)

      at_root : x.root_addr ≡ addr level (length pre)
      at_root =
          get_elem?-IsAddressed level 0 (length pre) (pre ++ x ∷ ts) h at
          ∙ ap (addr level) (zero-add (length pre))

  Copying-nil :
      (pre rest : List (LocatedPrunableTree H)) → Copying pre [] rest → pre ++ rest ≡ pre ++ []
  unfolding Copying
  Copying-nil pre [] c = refl
  Copying-nil pre (x ∷ rest) (_, _, _, short) = absurd (omega (arith, short))

module _ {ℓ} {H C : Type ℓ} ⦃o : Ord C⦄ (level : Level) where
  flush_shard_lem :
      (cache : MemoryShardStore H C) (x : LocatedPrunableTree H) (s : MemoryShardStore H C)
      {xs : List (LocatedPrunableTree H)}
      → get_elem? cache.shards x.root_addr.index ≡ some x
      → put_in x s.shards ≡ some xs
      → flush_shard memory_store cache x.root_addr s ≡ some (ok tt, record s { shards = xs })
  unfolding flush_shard memory_store get_shard put_shard
  flush_shard_lem cache x s found put =
      ap (λ o. (expect o >>= λ shard. try_modify (put_shard shard)) s) found
      ∙ ap (λ o. fmap (λ t. (ok tt, t)) (fmap (λ shards. record s { shards = shards }) o)) put

  -- The loop of `flush` over the shards of the cache.
  pub flush_shard-Copying :
      (cache : MemoryShardStore H C) (ts pre rest : List (LocatedPrunableTree H))
      (s : MemoryShardStore H C)
      → Copying level pre ts rest
      → cache.shards ≡ pre ++ ts
      → s.shards ≡ pre ++ rest
      → for_each (flush_shard memory_store cache) (map (λ t. t.root_addr) ts) s
        ≡ some (ok tt, record s { shards = cache.shards })
  unfolding flush_shard memory_store get_shard put_shard
  flush_shard-Copying cache [] pre rest s c e e' =
      ap (λ xs. some (ok tt, record s { shards = xs })) (e' ∙ Copying-nil level pre rest c ∙ sym e)
  flush_shard-Copying cache (x ∷ ts) pre rest s c e e' =
      let (found, put, next) = Copying-next level pre ts rest x c in
      >>=-ok (flush_shard memory_store cache x.root_addr) s
        (flush_shard_lem cache x s (ap (λ xs. get_elem? xs x.root_addr.index) e ∙ found)
          (ap (put_in x) e' ∙ put))
        (λ _. for_each (flush_shard memory_store cache) (map (λ t. t.root_addr) ts))
      ∙ flush_shard-Copying cache ts (pre ++ x ∷ []) (drop 1 rest)
          (record s { shards = (pre ++ x ∷ []) ++ drop 1 rest }) next (e ∙ append-drop pre ts x)
          refl

  -- The loop of `load` over the shards of the backend.
  pub load_shards-Copying :
      (backend : MemoryShardStore H C) (ts pre rest : List (LocatedPrunableTree H))
      (s : MemoryShardStore H C)
      → Copying level pre ts rest
      → backend.shards ≡ pre ++ ts
      → s.shards ≡ pre ++ rest
      → load_shards memory_store (map (λ t. t.root_addr) ts) s backend
        ≡ some (ok (record s { shards = backend.shards }), backend)
  unfolding load_shards memory_store get_shard put_shard
  load_shards-Copying backend [] pre rest s c e e' =
      ap (λ xs. some (ok (record s { shards = xs }), backend))
        (e' ∙ Copying-nil level pre rest c ∙ sym e)
  load_shards-Copying backend (x ∷ ts) pre rest s c e e' =
      let (found, put, next) = Copying-next level pre ts rest x c in
      ap
        (λ o.
          (expect o >>= λ shard. expect (put_shard shard s) >>= λ t.
          load_shards memory_store (map (λ t. t.root_addr) ts) t)
            backend)
        (ap (λ xs. get_elem? xs x.root_addr.index) e ∙ found)
      ∙ ap
          (λ o.
            (expect (fmap (λ xs. record s { shards = xs }) o) >>= λ t.
            load_shards memory_store (map (λ t. t.root_addr) ts) t)
              backend)
          (ap (put_in x) e' ∙ put)
      ∙ load_shards-Copying backend ts (pre ++ x ∷ []) (drop 1 rest)
          (record s { shards = (pre ++ x ∷ []) ++ drop 1 rest }) next (e ∙ append-drop pre ts x)
          refl

module _ {ℓ} {H C : Type ℓ} ⦃o : Ord C⦄ where
  pub for_entries-add :
      (es : OrderedMap C Checkpoint) (s : MemoryShardStore H C)
      → for_entries {E = Infallible} (λ m id c. ok (add_checkpoint id c m)) s es
        ≡ ok (record s { checkpoints = insert_all es s.checkpoints })
  unfolding add_checkpoint insert_all
  for_entries-add [] s = refl
  for_entries-add ((id, c) ∷ es) s =
      for_entries-add es (record s { checkpoints = insert id c s.checkpoints })

  pub for_each-add :
      (es : OrderedMap C Checkpoint) (s : MemoryShardStore H C)
      → for_each (λ e. memory_store.add_checkpoint e.0 e.1) es s
        ≡ some (ok tt, record s { checkpoints = insert_all es s.checkpoints })
  unfolding memory_store add_checkpoint insert_all
  for_each-add [] s = refl
  for_each-add ((id, c) ∷ es) s =
      for_each-add es (record s { checkpoints = insert id c s.checkpoints })

pub for_entries-push {ℓ} :
    {C : Type ℓ} (es gathered : OrderedMap C Checkpoint)
    → for_entries {E = Infallible}
        (λ checkpoints id c. ok (checkpoints ++ (id, c) ∷ []))
        gathered
        es
      ≡ ok (gathered ++ es)
for_entries-push [] gathered = ap ok (sym (append-nil gathered))
for_entries-push ((id, c) ∷ es) gathered =
    for_entries-push es (gathered ++ (id, c) ∷ []) ∙ ap ok (sym (append-drop gathered es (id, c)))
