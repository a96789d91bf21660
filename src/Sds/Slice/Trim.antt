-- ===== src/Sds/Slice/Trim.antt =====
-- `sdstrim` of src/sds.c.
use redis_counter.Base.{
  ℕ, zero, suc, ◌+◌, ◌-◌, ◌≤◌, ◌<◌, ◌≡◌, refl, sym, ◌∙◌, ap, arith, Bool-cases, inl, inr, true,
  false, List, ltb, ◌==◌, if◌then◌else◌, length, take, drop, get_or, at-get_or, at, ok, Returns,
  Returns-bind,
}
use redis_counter.Sds.Buffer.{length-take}
use redis_counter.Sds.Room.{IsSds, text}
use redis_counter.Sds.Slice.Move.{
  take-drop-take, get_or-take, MovedDown, move-MovedDown, Cut, cut-Cut,
}
use redis_counter.Sds.Slice.{move, in_set, skip_front, skip_back, trim}
use redis_counter.Sds.{Sds}

-- Where the first loop stops.
record Front (cset buf : List ℕ) (sp last e : ℕ) : Type 0 where
  from : sp ≤ e
  until : e ≤ last
  skipped : (i : ℕ) → sp ≤ i → i < e → in_set cset (get_or buf i 0) ≡ true
  stopped : e < last → in_set cset (get_or buf e 0) ≡ false

at-Returns : (buf : List ℕ) (i : ℕ) → i < length buf → Returns (at buf i) (λ c. get_or buf i 0 ≡ c)
at-Returns buf i h = (get_or buf i 0, at-get_or buf i 0 h, refl)

skip_front-Front :
    (cset buf : List ℕ) (sp n last : ℕ)
    → last ≡ sp + n
    → last ≤ length buf
    → Returns (skip_front cset buf sp n) (Front cset buf sp last)
unfolding skip_front
skip_front-Front cset buf sp zero last e h = (
  sp,
  refl,
  record {
    from = omega arith;
    until = omega arith;
    skipped = λ i p q. absurd (omega arith);
    stopped = λ p. absurd (omega arith);
  },
)
skip_front-Front cset buf sp (suc n) last e h =
    Returns-bind (at-Returns buf sp (omega arith)) λ c r. elim (Bool-cases (in_set cset c)) [
      | inl y ↦
          let m = skip_front-Front cset buf (suc sp) n last (omega arith) h in
          rw y (
            m.0,
            m.1,
            record {
              from = omega (arith, m.2.from);
              until = m.2.until;
              skipped = λ i p q. elim (Bool-cases (i == sp)) [
                | inl same ↦ let z : i ≡ sp = ground arith in rw (z, r) y
                | inr other ↦ m.2.skipped i (ground arith) q
              ];
              stopped = m.2.stopped;
            },
          )
      | inr n ↦ rw n (
        sp,
        refl,
        record {
          from = omega arith;
          until = omega arith;
          skipped = λ i p q. absurd (omega arith);
          stopped = λ p. rw r n;
        },
      )
    ]

-- Where the second loop stops.
record Back (cset buf : List ℕ) (sp past e : ℕ) : Type 0 where
  until : e ≤ past
  within : sp ≤ past → sp ≤ e
  left : sp < past → sp < e
  skipped : (i : ℕ) → e ≤ i → i < past → in_set cset (get_or buf i 0) ≡ true
  stopped : suc sp < e → in_set cset (get_or buf (e - 1) 0) ≡ false

skip_back-Back :
    (cset buf : List ℕ) (sp past : ℕ)
    → past ≤ length buf
    → Returns (skip_back cset buf sp past) (Back cset buf sp past)
unfolding skip_back
skip_back-Back cset buf sp zero h = (
  0,
  refl,
  record {
    until = omega arith;
    within = λ p. p;
    left = λ p. p;
    skipped = λ i p q. absurd (omega arith);
    stopped = λ p. absurd (omega arith);
  },
)
skip_back-Back cset buf sp (suc ep) h = elim (Bool-cases (ltb sp ep)) [
  | inr n ↦
      rw (n, skip_back)
        (
          suc ep,
          refl,
          record {
            until = omega arith;
            within = λ p. p;
            left = λ p. p;
            skipped = λ i p q. absurd (omega arith);
            stopped = λ p. absurd (ground arith);
          },
        )
  | inl y ↦
      rw (y, skip_back)
        (Returns-bind (at-Returns buf ep (omega arith)) λ c r. elim (Bool-cases (in_set cset c)) [
          | inl inside ↦
              let m = skip_back-Back cset buf sp ep (omega arith) in
              rw inside (
                m.0,
                m.1,
                record {
                  until = omega (arith, m.2.until);
                  within = λ p. m.2.within (ground arith);
                  left = λ p. m.2.left (ground arith);
                  skipped = λ i p q. elim (Bool-cases (i == ep)) [
                    | inl same ↦ let z : i ≡ ep = ground arith in rw (z, r) inside
                    | inr other ↦ m.2.skipped i p (ground arith)
                  ];
                  stopped = m.2.stopped;
                },
              )
          | inr n ↦
              let z : suc ep - 1 ≡ ep = omega arith in
              rw n (
                suc ep,
                refl,
                record {
                  until = omega arith;
                  within = λ p. p;
                  left = λ p. p;
                  skipped = λ i p q. absurd (omega arith);
                  stopped = λ p. ap (λ j. in_set cset (get_or buf j 0)) z ∙ ap (in_set cset) r ∙ n;
                },
              )
        ])
]

-- `u` is the part of `t` between `start` and `stop`: all bytes before and behind it are in the
-- set, its first and its last are not.
pub record Trimmed (cset t u : List ℕ) : Type 0 where
  pub start : ℕ
  pub stop : ℕ
  pub order : start ≤ stop
  pub inside : stop ≤ length t
  pub part : u ≡ take (stop - start) (drop start t)
  pub before : (i : ℕ) → i < start → in_set cset (get_or t i 0) ≡ true
  pub behind : (i : ℕ) → stop ≤ i → i < length t → in_set cset (get_or t i 0) ≡ true
  pub first : start < stop → in_set cset (get_or t start 0) ≡ false
  pub last : start < stop → in_set cset (get_or t (stop - 1) 0) ≡ false

last_byte :
    (cset buf : List ℕ) (len sp past : ℕ)
    → Front cset buf 0 len sp
    → Back cset buf sp len past
    → sp < past
    → in_set cset (get_or buf (past - 1) 0) ≡ false
last_byte cset buf len sp past f b p = elim (Bool-cases (ltb (suc sp) past)) [
  | inl y ↦ b.stopped (ground arith)
  | inr n ↦ let z : past - 1 ≡ sp = ground arith in rw z (f.stopped (omega (arith, b.until)))
]

loops-Trimmed :
    (cset buf : List ℕ) (len sp past : ℕ)
    → len ≤ length buf
    → Front cset buf 0 len sp
    → Back cset buf sp len past
    → Trimmed cset (take len buf) (take (past - sp) (drop sp (take len buf)))
loops-Trimmed cset buf len sp past h f b =
    let l = length-take len buf h in
    let same : (i : ℕ)
        → i < len
        → in_set cset (get_or (take len buf) i 0) ≡ in_set cset (get_or buf i 0) =
      λ i p. ap (in_set cset) (get_or-take len i buf p) in
    record {
      start = sp;
      stop = past;
      order = b.within f.until;
      inside = omega (arith, l, b.until);
      part = refl;
      before = λ i p. same i (omega (arith, f.until)) ∙ f.skipped i (omega arith) p;
      behind = λ i p q. same i (omega (arith, l)) ∙ b.skipped i p (omega (arith, l));
      first = λ p. same sp (omega (arith, b.until)) ∙ f.stopped (omega (arith, b.until));
      last = λ p. same (past - 1) (omega (arith, b.until)) ∙ last_byte cset buf len sp past f b p;
    }

shift-MovedDown :
    (buf : List ℕ) (start n : ℕ)
    → start + n ≤ length buf
    → Returns (if start == 0 then ok buf else move buf start n) (MovedDown buf start n)
shift-MovedDown buf start n h = elim (Bool-cases (start == 0)) [
  | inl y ↦
      let z : start ≡ 0 = ground arith in
      rw y (buf, refl, record { size = refl; same = ap (λ i. take n (drop i buf)) (sym z) })
  | inr q ↦ rw q (move-MovedDown buf start n h)
]

-- `sdstrim` of a well-formed string by a set of characters reads and writes nothing outside the
-- allocation and returns a well-formed string in the same allocation. Its text is a part of the
-- old text: all bytes before and behind the part are in the set or null bytes, and where the part
-- is not empty, its first and its last byte are neither.
pub trim-Trimmed :
    (s : Sds) (cset : List ℕ)
    → IsSds s
    → Returns (trim s cset) (λ r. Cut s (text r) r × Trimmed cset (text s) (text r))
unfolding trim
trim-Trimmed s cset v =
    let room : s.len ≤ length s.buf = omega (arith, v.fits, v.size) in
    Returns-bind (skip_front-Front cset s.buf 0 s.len s.len (omega arith) room) λ sp f.
      Returns-bind (skip_back-Back cset s.buf sp s.len room) λ past b.
        let fit : sp + (past - sp) ≤ s.len = omega (arith, b.until, b.within f.until, f.until) in
        Returns-bind (shift-MovedDown s.buf sp (past - sp) (omega arith)) λ c m.
          let k = cut-Cut s c (past - sp) v (omega arith) m.size in
          let e = k.2.0.same_text ∙ m.same ∙ sym (take-drop-take (past - sp) sp s.len s.buf fit) in
          (
            k.0,
            k.1,
            (
              record { valid = k.2.0.valid; same_room = k.2.0.same_room; same_text = refl },
              rw e (loops-Trimmed cset s.buf s.len sp past room f b),
            ),
          )
