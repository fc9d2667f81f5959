-- ===== src/PluginRuntime/Writer/Merging.antt =====
-- How a round of the loop of `FlushAll` settles a session, and how its second critical section merges
-- what failed into the writer.
use goncho.Prelude.{
  ℕ, suc, ◌+◌, ◌≡◌, ◌≤◌, refl, sym, ap, ◌∙◌, String, Bool, true, false, Option, none, some, List,
  [], ◌∷◌, ◌++◌, ltb, length, arith, contains, contains-without, without, eq_iff, contains-append,
  ◌<◌, lt→ltb,
}
use goncho.Prelude.Dict.{Dict, insert, remove, keys, IsMap}
use mathlib.Core.List.{append-nil, append_assoc}
use goncho.PluginRuntime.Session.{MemorySession}
use goncho.PluginRuntime.Writer.{
  Writer, Batch, FlushError, settle, values, remove_all, insert_all, commit, pending_count,
  rejection,
}

-- The keys of the cache are those of its sessions.
abbrev pub KeysMatch : Dict MemorySession → Type 0
KeysMatch [] = Unit
KeysMatch ((k, session) ∷ m) = (session.key ≡ k) × KeysMatch m

abbrev pub is_none {ℓ} : {A : Type ℓ} → Option A → Bool
is_none none = true
is_none (some _) = false

pub is_none-rejection : {E : Type 0} (o : Option E) → is_none (rejection o) ≡ is_none o
is_none-rejection none = refl
is_none-rejection (some e) = refl

-- The round of the loop, by whether the session was taken.
pub settle-taken :
    {E : Type 0} (i queued : ℕ) (session : MemorySession) (o : Option (FlushError E)) (b : Batch)
    → is_none o ≡ true
    → settle i queued session o b ≡ record b { flushed_count = b.flushed_count + 1 }
unfolding settle
settle-taken i queued session none b h = refl
settle-taken i queued session (some e) b h = cc

pub settle-queued :
    {E : Type 0} (i queued : ℕ) (session : MemorySession) (o : Option (FlushError E)) (b : Batch)
    → is_none o ≡ false
    → i < queued
    → settle i queued session o b ≡ record b { failed_queue = b.failed_queue ++ session ∷ [] }
unfolding settle
settle-queued i queued session none b h l = cc
settle-queued i queued session (some e) b h l = rw (lt→ltb i queued l)

pub settle-cached :
    {E : Type 0} (i queued : ℕ) (session : MemorySession) (o : Option (FlushError E)) (b : Batch)
    → is_none o ≡ false
    → queued ≤ i
    → settle i queued session o b
      ≡ record b { failed_cache = insert session.key session b.failed_cache }
unfolding settle
settle-cached i queued session none b h l = cc
settle-cached i queued session (some e) b h l =
    let stop : ltb i queued ≡ false = ground arith in rw stop

pub insert-fresh :
    {V : Type 0} (k : String) (v : V) (m : Dict V)
    → contains (keys m) k ≡ false
    → insert k v m ≡ m ++ (k, v) ∷ []
unfolding insert contains
insert-fresh k v [] h = refl
insert-fresh k v ((j, w) ∷ m) h = ground (arith, insert-fresh k v m)

keys-remove : {V : Type 0} (k : String) (m : Dict V) → keys (remove k m) ≡ without k (keys m)
unfolding remove without
keys-remove k [] = refl
keys-remove k ((j, v) ∷ m) = ground (arith, keys-remove k m)

-- Removing every key leaves nothing.
pub remove_all-nil :
    (ks : List String) (m : Dict MemorySession)
    → ((j : String) → contains (keys m) j ≡ true → contains ks j ≡ true)
    → remove_all ks m ≡ []
unfolding contains
remove_all-nil [] [] h = refl
remove_all-nil [] ((k, v) ∷ m) h = ground (arith, h k, eq_iff k k)
remove_all-nil (k ∷ ks) m h =
    remove_all-nil ks (remove k m)
      λ j e. ground (arith, h j, keys-remove k m, contains-without k (keys m) j)

-- The key does not stand in the map, nor does any key of the second map in the first.
abbrev pub Apart : Dict MemorySession → Dict MemorySession → Type 0
Apart m failed = (j : String) → contains (keys failed) j ≡ true → contains (keys m) j ≡ false

keys-snoc :
    (m : Dict MemorySession) (k : String) (v : MemorySession)
    → keys (m ++ (k, v) ∷ []) ≡ keys m ++ k ∷ []
keys-snoc [] k v = refl
keys-snoc ((j, w) ∷ m) k v = ap (λ ks. j ∷ ks) (keys-snoc m k v)

pub snoc-Apart :
    (m : Dict MemorySession) (k : String) (v : MemorySession) (failed : Dict MemorySession)
    → IsMap ((k, v) ∷ failed)
    → Apart m ((k, v) ∷ failed)
    → Apart (m ++ (k, v) ∷ []) failed
unfolding contains
snoc-Apart m k v failed d h j e =
    rw keys-snoc (ground (arith, h j, d.0, contains-append (keys m) (k ∷ []) j, eq_iff k j))

pub head-Apart :
    (m : Dict MemorySession) (k : String) (v : MemorySession) (failed : Dict MemorySession)
    → Apart m ((k, v) ∷ failed)
    → contains (keys m) k ≡ false
unfolding contains
head-Apart m k v failed h = ground (arith, h k, eq_iff k k)

pub tail-Apart :
    (m : Dict MemorySession) (k : String) (v : MemorySession) (failed : Dict MemorySession)
    → Apart m ((k, v) ∷ failed)
    → Apart m failed
unfolding contains
tail-Apart m k v failed h j e = ground (arith, h j)

pub insert_all-fresh :
    (failed m : Dict MemorySession)
    → IsMap failed
    → Apart m failed
    → insert_all failed m ≡ m ++ failed
insert_all-fresh [] m d h = sym (append-nil m)
insert_all-fresh ((k, v) ∷ failed) m d h = rw (insert-fresh k v m (head-Apart m k v failed h)) (
    insert_all-fresh failed (m ++ (k, v) ∷ []) d.1 (snoc-Apart m k v failed d h)
    ∙ append_assoc m ((k, v) ∷ []) failed)

pub length-values : (m : Dict MemorySession) → length (values m) ≡ length m
length-values [] = refl
length-values (e ∷ m) = ap suc (length-values m)

pub length-keys : (m : Dict MemorySession) → length (keys m) ≡ length m
length-keys [] = refl
length-keys (e ∷ m) = ap suc (length-keys m)

module _ (ks : List String) (b : Batch) (w : Writer) where
  pub writer-commit : (commit ks b w).0 ≡ record w {
    queue = b.failed_queue ++ w.queue;
    cache = insert_all b.failed_cache (remove_all ks w.cache);
  }
  unfolding commit
  writer-commit = ground arith

  pub pending-commit : (commit ks b w).1.pending ≡ pending_count (commit ks b w).0
  unfolding commit
  pending-commit = ground arith

  pub flushed-commit : (commit ks b w).1.flushed_count ≡ b.flushed_count
  unfolding commit
  flushed-commit = ground arith
