-- ===== src/OfflineQueue/Reload.antt =====
-- The file of EaFileOfflineQueue against its items (src/ea_file_offline_queue.cpp).
use embed_agent.Base.{
  ℕ, ◌^◌, ◌≡◌, ◌<◌, ◌⊎◌, refl, ap, sym, ◌∙◌, Bool, true, false, not, ◌&&◌, List, [], ◌∷◌, ◌++◌,
  Option, none, some, Text, pos, is_empty, if◌then◌else◌, ◌==◌, arith, append_assoc,
}
use embed_agent.Cppev.{JsonCodec}
use embed_agent.OfflineQueue.{QueuedItem}
use embed_agent.OfflineQueue.Item.{
  parsed, IsReadBack, serialize_queued_item, parse_queued_item, parse-serialize_queued_item,
}
use embed_agent.OfflineQueue.File.{
  Outcomes, FileQueue, lines_of, contents, cons_line, read_lines, load, load_file, items_text,
  append_text, append_line, persist_all, replace_file, enqueue, written_part,
}

abbrev pub one_line : Text → Bool
one_line [] = true
one_line (c ∷ cs) = not (c == 10) && one_line cs

lines_of-line : (l t : Text) → one_line l ≡ true → lines_of (l ++ 10 ∷ t) ≡ l ∷ lines_of t
unfolding lines_of
lines_of-line [] t h = refl
lines_of-line (c ∷ l) t h = ground (arith, lines_of-line l t)

module _ (J : JsonCodec) where
  -- The JSON library reads the item back from the one line that it writes, and its time is that of
  -- a clock: not negative, below 2^63.
  pub record IsKept (x : QueuedItem) : Type 0 where
    pub line : Text
    pub read_back : IsReadBack J x line
    pub single : one_line line ≡ true
    pub time : ℕ
    pub at : x.enqueued_at_ms ≡ pos time
    pub small : time < 2 ^ 63

  abbrev pub AllKept : List QueuedItem → Type 0
  AllKept [] = Unit {0}
  AllKept (x ∷ xs) = IsKept x × AllKept xs

  -- The file's text is that of the items.
  abbrev pub IsSaved : FileQueue → Type 0
  IsSaved q = items_text J q.items ≡ some (contents q.file)

  cons_line-some :
      (line rest : Option Text) (text : Text)
      → cons_line J line rest ≡ some text
      → (l : Text) × (r : Text) × (line ≡ some l) × (rest ≡ some r) × (text ≡ l ++ 10 ∷ r)
  cons_line-some none rest text e = cc
  cons_line-some (some l) none text e = cc
  cons_line-some (some l) (some r) text e = (l, r, refl, refl, ground arith)

  -- A line that is an item's adds the item.
  read_lines-cons :
      (l : Text) (ls : List Text) (x : QueuedItem) (xs : List QueuedItem)
      → is_empty l ≡ false
      → parse_queued_item J l ≡ parsed x
      → read_lines J ls ≡ some xs
      → read_lines J (l ∷ ls) ≡ some (x ∷ xs)
  unfolding read_lines
  read_lines-cons l ls x xs some_text p r = rw (p, some_text, r)

  read_lines-items_text :
      (xs : List QueuedItem) (text : Text)
      → AllKept xs
      → items_text J xs ≡ some text
      → read_lines J (lines_of text) ≡ some xs
  unfolding read_lines lines_of items_text
  read_lines-items_text [] text k e = ground arith
  read_lines-items_text (x ∷ xs) text (k, ks) e =
      let (s, p) = parse-serialize_queued_item J x k.line k.time k.read_back k.at k.small in
      let (l, rest, s', e', t) = cons_line-some _ (items_text J xs) text e in
      let same : l ≡ k.line = ground (arith, s, s') in
      rw (t, same, lines_of-line k.line rest k.single)
        (read_lines-cons k.line (lines_of rest) x xs k.read_back.some_text p
          (read_lines-items_text xs rest ks e'))

  -- Loading a file that holds the text of a queue's items gives the queue, whatever items were in
  -- memory.
  pub load_saved :
      (q : FileQueue) (old : List QueuedItem) (io : Outcomes)
      → AllKept q.items
      → IsSaved q
      → io.dir_ready ≡ true
      → io.opened ≡ true
      → load J (record q { items = old }) io ≡ some (q, true)
  unfolding load load_file read_lines lines_of items_text
  load_saved q old io k saved ready opened = rw (ready, opened) (by_file q.file q.items k saved)
    where
      by_file :
          (file : Option Text) (xs : List QueuedItem)
          → AllKept xs
          → items_text J xs ≡ some (contents file)
          → load_file J (record { file = file; items = old }) file
            ≡ some (record { file = file; items = xs }, true)
      by_file none xs k e =
          ap (λ ys. some (record { file = none; items = ys }, true))
            (missing (read_lines-items_text xs [] k e))
        where
          missing : some [] ≡ some xs → [] ≡ xs
          missing h = ground arith
      by_file (some text) xs k e = rw (read_lines-items_text xs text k e) refl

  -- persistAll leaves the file as it was and returns false, or it returns true and the file holds
  -- the text of the items; the items stay.
  pub persist_all_cases :
      (q : FileQueue) (io : Outcomes)
      → let r = persist_all J q io in
        (r.0.items ≡ q.items)
        × (((r.1 ≡ false) × (r.0.file ≡ q.file))
            ⊎ ((r.1 ≡ true) × (items_text J q.items ≡ some (contents r.0.file))))
  unfolding persist_all
  persist_all_cases q io = by_text (items_text J q.items) refl
    where
      by_text :
          (t : Option Text)
          → items_text J q.items ≡ t
          → let r : FileQueue × Bool =
              if not io.dir_ready
              then (q, false)
              else if not io.opened
              then (q, false)
              else replace_file J q io t in
            (r.0.items ≡ q.items)
            × (((r.1 ≡ false) × (r.0.file ≡ q.file))
                ⊎ ((r.1 ≡ true) × (items_text J q.items ≡ some (contents r.0.file))))
      by_text none e = ground arith
      by_text (some t) e = ground arith

  items_text-append :
      (xs : List QueuedItem) (x : QueuedItem) (text line : Text)
      → items_text J xs ≡ some text
      → serialize_queued_item J x ≡ some line
      → items_text J (xs ++ x ∷ []) ≡ some (text ++ (line ++ 10 ∷ []))
  unfolding items_text
  items_text-append [] x text line e s = ground arith
  items_text-append (y ∷ xs) x text line e s =
      let (l, rest, s', e', t) = cons_line-some _ (items_text J xs) text e in
      rw (s', items_text-append xs x rest line e' s, t)
        (ap some (sym (append_assoc l (10 ∷ rest) (line ++ 10 ∷ []))))

  -- An item that is appended to a saved queue leaves it saved where enqueue returns true and the
  -- whole line was written.
  pub enqueue-IsSaved :
      (q : FileQueue) (io : Outcomes) (x : QueuedItem)
      → IsSaved q
      → io.cut ≡ none
      → (enqueue J q io x).1 ≡ true
      → IsSaved (enqueue J q io x).0
  unfolding enqueue append_line
  enqueue-IsSaved q io x saved whole = by_line (serialize_queued_item J x) refl
    where
      by_line :
          (line : Option Text)
          → serialize_queued_item J x ≡ line
          → let r = append_text J (record q { items = q.items ++ x ∷ [] }) io line in
            r.1 ≡ true → IsSaved r.0
      by_line none e ok = cc
      by_line (some line) e ok = appended line e io.dir_ready io.opened ok
        where
          appended :
              (line : Text)
              → serialize_queued_item J x ≡ some line
              → (ready opened : Bool)
              → let r : FileQueue × Bool =
                  append_text J
                    (record q { items = q.items ++ x ∷ [] })
                    (record io { dir_ready = ready; opened = opened })
                    (some line) in
                r.1 ≡ true → IsSaved r.0
          appended line e false opened ok = cc
          appended line e true false ok = cc
          appended line e true true ok =
              items_text-append q.items x (contents q.file) line saved e
              ∙ ap (λ (n : Option ℕ). some (contents q.file ++ written_part n (line ++ 10 ∷ [])))
                  (sym whole)
