-- ===== src/VoiceForwarder/Talkers.antt =====
-- How many users talk in a channel at once.
