-- ===== src/Tests/World.antt =====
-- Two hosts, one with the low byte of a word first and one with the high byte first, whose disk
-- reports no error and whose sockets give the messages of a script.
use load_balancer_with_wal.Base.{
  ℕ, ◌+◌, ◌*◌, ◌/◌, ◌%◌, ◌^◌, ◌≤◌, ◌<◌, ◌≡◌, refl, ◌∙◌, ap, true, false, Option, some, none, List,
  [], ◌∷◌, ◌++◌, length, take, drop, leb, le→leb, lt→leb, if◌then◌else◌, arith,
}
use load_balancer_with_wal.Base.Int.{ℤ, pos, minus_one}
use load_balancer_with_wal.Platform.{Platform}
use load_balancer_with_wal.Platform.Laws.{ByteLaws, CrcLaws, FileLaws}
use load_balancer_with_wal.LoadBalancer.Messages.Words.{SameNetwork}

pub record World : Type 0 where
  pub disk : List ℕ
  pub stream : List ℕ
  pub reading : List ℕ
  pub inbox : List (List ℕ)
  pub outbox : List (List ℕ)

abbrev pub low_first : ℕ → List ℕ
low_first w = (w % 256) ∷ (w / 256 % 256) ∷ (w / 65536 % 256) ∷ (w / 16777216 % 256) ∷ []

abbrev pub high_first : ℕ → List ℕ
high_first w = (w / 16777216 % 256) ∷ (w / 65536 % 256) ∷ (w / 256 % 256) ∷ (w % 256) ∷ []

abbrev pub digits : ℕ → ℕ → ℕ → ℕ → ℕ
digits a b c d = a + b * 256 + c * 65536 + d * 16777216

abbrev pub word_low : List ℕ → ℕ
word_low (a ∷ b ∷ c ∷ d ∷ _) = digits a b c d
word_low _ = 0

abbrev pub word_high : List ℕ → ℕ
word_high (a ∷ b ∷ c ∷ d ∷ _) = digits d c b a
word_high _ = 0

abbrev pub sum : List ℕ → ℕ
sum [] = 0
sum (x ∷ xs) = x + sum xs

abbrev pub read_front : ℕ → World → Option (List ℕ) × World
read_front n w =
    if leb n (length w.reading)
    then (some (take n w.reading), record w { reading = drop n w.reading })
    else (none, w)

abbrev pub receive : ℤ → ℕ → World → ℤ × List ℕ × World
receive sock n w = elim w.inbox [
  | [] ↦ (minus_one, [], w)
  | bs ∷ more ↦ (pos n, bs, record w { inbox = more })
]

abbrev pub host : (ℕ → List ℕ) → (List ℕ → ℕ) → (ℕ → ℕ) → Platform World
host to_bytes of_bytes swap = record {
  bytes = to_bytes;
  word = of_bytes;
  htonl = swap;
  ntohl = swap;
  crc32 = λ bs. sum bs % 2 ^ 32;
  socket = λ w. (pos 3, w);
  inet_pton = λ a. pos 1;
  connect = λ sock a port w. (pos 0, w);
  bind = λ sock port w. (pos 0, w);
  listen = λ sock n w. (pos 0, w);
  accept = λ sock w. (pos 5, w);
  setsockopt = λ sock v w. (pos 0, w);
  send = λ sock bs w. (pos (length bs), record w { outbox = w.outbox ++ bs ∷ [] });
  recv = receive;
  peek = λ sock n w. (pos 1, w);
  shutdown = λ sock w. w;
  close = λ sock w. w;
  fopen = λ name w. (true, w);
  fwrite = λ bs w. record w { stream = w.stream ++ bs };
  fflush = λ w. record w { disk = w.stream };
  fclose = λ w. record w { disk = w.stream };
  fread = read_front;
  ferror = λ w. false;
  now = λ w. (0, w);
  uninit = λ w. pos 0;
}

abbrev pub little : Platform World
little = host low_first word_low (λ w. word_low (high_first w))

abbrev pub big : Platform World
big = host high_first word_high (λ w. w)

digits_of :
    (w : ℕ)
    → w < 2 ^ 32
    → digits (w % 256) (w / 256 % 256) (w / 65536 % 256) (w / 16777216 % 256) ≡ w
digits_of w h = omega arith

pub little-ByteLaws : ByteLaws little
little-ByteLaws = record { length_bytes = λ w. refl; word_bytes = digits_of }

pub little-CrcLaws : CrcLaws little
little-CrcLaws = record { crc32_lt = λ bs. below (sum bs); uninit_int = λ w. omega arith }
  where
    below : (n : ℕ) → n % 2 ^ 32 < 2 ^ 32
    below n = omega arith

pub fread_full_lem :
    (n : ℕ) (w : World) → n ≤ length w.reading → (read_front n w).0 ≡ some (take n w.reading)
fread_full_lem n w h = rw (le→leb n (length w.reading) h)

pub unread_lem :
    (n : ℕ) (w : World) → n ≤ length w.reading → (read_front n w).1.reading ≡ drop n w.reading
unread_lem n w h = rw (le→leb n (length w.reading) h)

pub fread_short_lem : (n : ℕ) (w : World) → length w.reading < n → (read_front n w).0 ≡ none
fread_short_lem n w h = rw (lt→leb n (length w.reading) h)

abbrev pub little-FileLaws : FileLaws little
little-FileLaws = record {
  written = λ w. w.stream;
  durable = λ w. w.disk;
  unread = λ w. w.reading;
  no_error = λ w. refl;
  written-fwrite = λ bs w. refl;
  written-fflush = λ w. refl;
  written-now = λ w. refl;
  durable-fflush = λ w. refl;
  durable-now = λ w. refl;
  fread_full = fread_full_lem;
  unread-fread = unread_lem;
  fread_short = fread_short_lem;
}

low_first-digits :
    (a b c d : ℕ)
    → a < 256
    → b < 256
    → c < 256
    → d < 256
    → low_first (digits a b c d) ≡ a ∷ b ∷ c ∷ d ∷ []
low_first-digits a b c d ha hb hc hd = rw (e0, e1, e2, e3)
  where
    e0 : digits a b c d % 256 ≡ a
    e0 = omega arith

    e1 : digits a b c d / 256 % 256 ≡ b
    e1 = omega arith

    e2 : digits a b c d / 65536 % 256 ≡ c
    e2 = omega arith

    e3 : digits a b c d / 16777216 % 256 ≡ d
    e3 = omega arith

pub little-big-SameNetwork : SameNetwork little big
little-big-SameNetwork = record {
  ntohl_htonl = λ w h.
      ap word_high (
        low_first-digits (w / 16777216 % 256) (w / 65536 % 256) (w / 256 % 256) (w % 256)
          (omega arith) (omega arith) (omega arith) (omega arith))
      ∙ digits_of w h;
}
