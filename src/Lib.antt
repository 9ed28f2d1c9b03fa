-- ===== src/Lib.antt =====
-- A verification library of the programs of the repository. Each program stands in a folder of its own,
-- and so does its model.
--
-- Utf: hw2, which translates files between UTF-8, UTF-16LE and UTF-16BE. `main` (hw2/src/main.c) asks
-- `check_bom` for the format of the input and `get_encoding_function` for a conversion (hw2/src/utf.c),
-- and calls that on the two files. The conversions (hw2/src/utf8.c, utf16le.c, utf16be.c) are loops over
-- reads and writes of single units (hw2/src/wrappers.c), built from codecs for one code point.
--   Utf/Glyph     bytes, bit fields, the glyph types and reverse_bytes (hw2/include/utf.h, wrappers.c)
--   Utf/Spec      the encodings in arithmetic, without the code
--   Utf/Utf8, Utf/Utf16   the codecs of utf8.c, and of utf16le.c, utf16be.c and utf.c
--   Utf/Files     files, reads that fail or end early, and the run of a loop
--   Utf/Convert   the six conversions, each with its round as a function of the loop's variables
--   Utf/Args      parse_args (hw2/src/args.c), where Args/Places is about the places of the option
--   Utf/Program   check_bom, get_encoding_function, determine_format, transcribe and main
-- Numbers of a fixed width are native numbers with the wrap-around written out; the build is the one for
-- a little-endian machine. Local variables that C leaves unset are arguments, named `stack` or the like,
-- and no theorem fixes them. A device that fails does so where the readable bytes end. Writes succeed.
-- The loops run on fuel, one round for each byte of the input and one more, which the theorems show to
-- be enough. getopt looks at the argument at optind in each call, as its options "+e:" say, where no
-- exchange of arguments behind a second `--` is modelled; which files are there, can be opened and have
-- which inode is an argument. Not modelled of hw2: the functions that only print, with join_string_array
-- and array_size.
--
-- Cream: hw5, a cache server: worker threads take connections from a queue and answer requests out of a
-- hash map. Modelled are the map (hw5/src/hashmap.c) and the queue (hw5/src/queue.c), as one thread runs
-- their functions, and the server (hw5/src/cream.c): a worker's rounds, and all threads on the queue.
--   Cream/Map           the map, with one function for each of hashmap.c
--   Cream/Map/Offset    the order in which a probe visits the nodes
--   Cream/Map/Probe     where the loops of put, get and delete end
--   Cream/Map/Lookup    a map that can be used, and what get finds by the offsets of its probe
--   Cream/Map/Placed    probes that find a key wherever it stands
--   Cream/Map/Written, Put, Others, Room, Delete, Marked, Clear   the operations
--   Cream/Map/Congruence   keys that are equal
--   Cream/Queue         the queue, its nodes in a memory of blocks
--   Cream/Queue/Chain, Fifo, Calls   the linked nodes, the operations, and sequences of calls
--   Cream/Server        worker_thread: the branches of handle, the ends of a round, and the rounds
--   Cream/Server/Sessions, Undersized, Ready   requests that follow one another, early returns, and the
--                       map behind the requests of one worker
--   Cream/Threads       main and the workers on one queue as a step relation, in which a body under a
--                       lock is one step; Threads/InOrder is about the states that it reaches
--   Cream/Readers       readers and writers of the map that interleave, as a step relation; Readers/Progress
--                       is about the wait of a writer
--   Cream/Hash          the hash function of main (hw5/src/utils.c); the map takes any
--   Cream/Start         main up to create_map; Runs joins it to the workers
-- A pointer is a number and NULL is 0; strcmp and the hash function are parameters, of which nothing is
-- assumed but, for two keys, that strcmp tells strings apart by an equivalence relation; strcmp of NULL,
-- as for an empty key, is a value of that parameter too. In Cream/Map the count num_readers is as one
-- thread leaves it, and so it is in the rounds of a worker; Cream/Readers has the calls of several
-- threads on it, without the nodes. A call ends with a value and the map, or spins on num_readers, or
-- faults at a write through NULL. The loops run on fuel, the capacity of the map, which Probe shows to
-- be enough. A connection is its header, its pointers and how each call of the socket library ends; atoi
-- is a parameter. A round gives the messages written and the map, and a thread the list of its rounds
-- until one of them ends it. Not modelled of hw5: what a reader reads of nodes that a writer changes at
-- the same time, and failing allocation. hw5/src/csapp.c is the library of a textbook.
--
-- Cipher: hw1, two ciphers for texts on the standard input. `main` (hw1/src/main.c) asks `validargs`
-- (hw1/src/hw1.c) for a mode, makes a table from the key, and encrypts or decrypts byte by byte.
--   Cipher/Tables     the alphabets and the shared variables (hw1/src/const.c)
--   Cipher/Args       validargs and isvalidchar; below it the values that it returns
--   Cipher/Polybius   the Polybius cipher with its loops; below it its table, its digits, the round trip,
--                     and where it goes wrong
--   Cipher/Morse      the fractionated Morse cipher; Morse/Encrypt and Morse/Decrypt are its loops in main
--   Cipher/Morse/Stream   what it prints of a text, by the symbols of its lines and without a buffer
--   Cipher/Morse/Buffer, Rounds, Lines   the buffer, a round of the encrypting loop, and the loop on a text
--   Cipher/Program    main; Program/Texts are its runs on whole texts
-- A character is its byte, and the arrays are lists of their lengths, 257 and 27. An access out of bounds
-- ends the run as `undefined`, since C says nothing about it; a read right behind a string counts as one.
-- The sum in a number of rows that overflows an int wraps around. Loops that are bounded by an array
-- recur on it; the others have the bytes of the buffer as fuel.
--
-- Alloc: hw3, a memory allocator with segregated free lists (hw3/src/sfmm.c). Modelled are `sf_malloc`,
-- `sf_free` and `sf_realloc`.
--   Alloc/Memory      the heap: words of eight bytes at their addresses, the bit fields of headers and
--                     footers (hw3/include/sfmm.h), and the lists
--   Alloc/Keeps       words that a function leaves
--   Alloc/Free        sf_free, with the loop that joins free blocks and the list of a size; Free/Push and
--                     Free/Twice are its links and a second call on one pointer
--   Alloc/Malloc      the search of sf_malloc and what it does to the block that it finds
--   Alloc/Malloc/Inside, Links, Close, Rest, Sizes, Carve, Found   pointers that point elsewhere, the links,
--                     the words of the block, the rest behind it, sizes, and the search
--   Alloc/Pages       new pages, and sf_malloc as a whole
--   Alloc/Given       calls of sf_malloc that find a block, and sf_free of what they give
--   Alloc/Realloc     sf_realloc
-- Pointers are multiples of eight, and a word outside the heap has some value too. A block size times 16
-- does not overflow an int, and a size for sf_realloc is below 2^64 - 16. The loops over blocks have the
-- end of the heap as fuel: each round moves by sixteen bytes or more, or meets a block of size 0, or a list
-- that is a ring, and ends never, which running out of fuel stands for. The calls of sf_malloc within one
-- another are counted by a fuel of their own. sf_sbrk is an argument, since its library is only an object
-- file, of which nothing is assumed: the theorems are about requests that need no new page.
--
-- Shell: hw4, a shell (hw4/src/main.c). Modelled are the list of jobs, the
-- commands of the shell itself, the redirections and the pipes.
--   Shell/Jobs        the jobs at their addresses, `sigchld_handler_shell`, a new job, `jobs`, and the loop
--                     that ends a round of `main`
--   Shell/Jobs/Links, Removal, Lookup, Handler, Adding, Reaping   lists of jobs in memory, and what each of
--                     these makes of them
--   Shell/Kill        `kill`; Kill/Names is about the names of a job
--   Shell/Foreground  `fg`; Foreground/Freed is about its job after the wait
--   Shell/Trim        `trimwhitespace`
--   Shell/Redirect    the start of `findexecutable`, where a command is cut at its redirections, and the
--                     choice of files in `execute`; Redirect/Cutting, Printing and Order are about both
--   Shell/Words       the words of a command and the search of PATH; Words/Search is about both
--   Shell/Pipeline    which commands the shell runs itself, and the pipes between the others; Connected
--                     is about the pipes, Names about the names of commands
--   Shell/Color       `color`
--   Shell/Naming      the name of a new job
--   Shell/Directory   `cd`; Directory/Back is about where it leads
--   Shell/Tests       tests
-- A loop over the jobs has a fuel, for which one more than the number of the jobs is enough; the search
-- of PATH and the words of a command have one for their number. What the system says is an argument: the
-- process that `waitpid` finds, whether a process is there, whether a signal is accepted, which files
-- `open` opens, where `chdir` leads, which commands are found and how a program ends, and how many bytes
-- a block of `malloc` has. The arrays `currentDir`, `prevDir` and `newdir` are taken to be long enough,
-- which the code does not test; `execpath` and the copy of PATH have their bounds. `atoi` is the number
-- that the digits write, for a number that an int holds; a failure of `fork`, whose -1 the code keeps as
-- a process, is left out. Not modelled are the modes of the terminal, the groups of processes, the masks
-- of signals, the `&` behind a line, and the prompt.
--
-- hw0 is not modelled.
pub mod Base
pub mod Utf
pub mod Cream
pub mod Cipher
pub mod Alloc
pub mod Shell
