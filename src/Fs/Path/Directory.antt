-- ===== src/Fs/Path/Directory.antt =====
-- `dirlink` and `dirlookup`: a name that is linked is found, and the others as before.
